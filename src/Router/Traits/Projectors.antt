-- ===== src/Router/Traits/Projectors.antt =====
-- `ProjectorRouter` of router.go.
use angzarr_client_go.Prelude.{String, ◌⧺◌, Option, none, some, [], lookup, insert}
use angzarr_client_go.Proto.{Cover, EventBook, Projection}
use angzarr_client_go.Errors.{Result, err, status, invalid_argument, unimplemented}
use angzarr_client_go.Router.Traits.{ProjectorDomainHandler, ProjectorRouter}

-- `NewProjectorRouter`.
abbrev new_projector_router : String → ProjectorRouter
new_projector_router name = record { name = name; domains = [] }

-- `ProjectorRouter.Domain`.
abbrev projector_domain : ProjectorRouter → String → ProjectorDomainHandler → ProjectorRouter
projector_domain r name handler = record r { domains = insert name handler r.domains }

abbrev pub project_with :
    EventBook → String → Option ProjectorDomainHandler → Result (Option Projection)
project_with events domain none = err (status unimplemented ("no handler for domain: " ⧺ domain))
project_with events domain (some handler) = handler.project events

abbrev pub project_covered : ProjectorRouter → EventBook → Option Cover → Result (Option Projection)
project_covered r events none = err (status invalid_argument "missing event book cover")
project_covered r events (some cover) =
    project_with events cover.domain (lookup cover.domain r.domains)

-- `ProjectorRouter.Dispatch`.
unfoldable pub dispatch_projector : ProjectorRouter → Option EventBook → Result (Option Projection)
dispatch_projector r none = err (status invalid_argument "missing event book cover")
dispatch_projector r (some events) = project_covered r events events.cover
