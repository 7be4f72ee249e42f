-- ===== src/Generator/Templates.antt =====
-- The templates of cmd/angzarr-gen/main.go, as the texts that they give for the information on a type.
pub mod Calls
use angzarr_client_go.Prelude.{
  String, ◌⧺◌, Bool, true, false, not, List, [], ◌∷◌, str_eq, if◌then◌else◌,
}
use angzarr_client_go.Generator.Source.{HandlerInfo, TypeInfo}

-- `{{range .Handlers}}`.
unfoldable pub each : (HandlerInfo → String) → List HandlerInfo → String
each f [] = ""
each f (h ∷ hs) = f h ⧺ each f hs

-- `{{if b}}`, without an else.
abbrev pub when : Bool → String → String
when b text = if b then text else ""

-- A text is true in a template when it is not empty.
abbrev pub is_set : String → Bool
is_set text = not (str_eq text "")

-- `{{if .StateType}}{{.StateType}}{{else}}any{{end}}`.
abbrev state_or_any : TypeInfo → String
state_or_any info = if is_set info.state_type then info.state_type else "any"

-- What the template has before its handlers.
abbrev pub aggregate_head : TypeInfo → String
aggregate_head info =
    "// Code generated by angzarr-gen. DO NOT EDIT.\n"
    ⧺ "\n"
    ⧺ "package "
    ⧺ info.package_name
    ⧺ "\n"
    ⧺ "\n"
    ⧺ "import (\n"
    ⧺ "\tangzarr \"github.com/angzarr/client/go\"\n"
    ⧺ "\tpb \"github.com/angzarr/client/go/proto/angzarr\"\n"
    ⧺ ")\n"
    ⧺ "\n"
    ⧺ "// New"
    ⧺ info.type_name
    ⧺ "Router creates a CommandRouter from the "
    ⧺ info.type_name
    ⧺ "'s annotated methods.\n"
    ⧺ "func New"
    ⧺ info.type_name
    ⧺ "Router(agg *"
    ⧺ info.type_name
    ⧺ ") *angzarr.CommandRouter["
    ⧺ (state_or_any info)
    ⧺ "] {\n"
    ⧺ "\treturn angzarr.NewCommandRouter(\""
    ⧺ info.domain
    ⧺ "\", agg.RebuildState)"

abbrev pub aggregate_on : HandlerInfo → String
aggregate_on h = when (not h.is_rejected) (
    when (is_set h.command_type)
      (".\n" ⧺ "\t\tOn(\"" ⧺ h.command_type ⧺ "\", wrap" ⧺ h.method_name ⧺ "(agg))"))

abbrev pub aggregate_on_rejected : HandlerInfo → String
aggregate_on_rejected h = when h.is_rejected (
    ".\n" ⧺ "\t\tOnRejected(\"" ⧺ h.domain ⧺ "\", \"" ⧺ h.command ⧺ "\", wrap" ⧺ h.method_name
    ⧺ "(agg))")

abbrev pub aggregate_wrap : TypeInfo → HandlerInfo → String
aggregate_wrap info h = when (not h.is_rejected) (
    when (is_set h.command_type) (
      "\n"
      ⧺ "func wrap"
      ⧺ h.method_name
      ⧺ "(agg *"
      ⧺ info.type_name
      ⧺ ") angzarr.CommandHandler["
      ⧺ (state_or_any info)
      ⧺ "] {\n"
      ⧺ "\treturn func(cb *pb.CommandBook, cmd *pb.Any, state *"
      ⧺ (state_or_any info)
      ⧺ ", seq uint32) (*pb.EventBook, error) {\n"
      ⧺ "\t\t// Unpack command and call method\n"
      ⧺ "\t\treturn agg."
      ⧺ h.method_name
      ⧺ "(cb, cmd, state, seq)\n"
      ⧺ "\t}\n"
      ⧺ "}\n"))

abbrev pub aggregate_wrap_rejected : TypeInfo → HandlerInfo → String
aggregate_wrap_rejected info h = when h.is_rejected (
    "\n"
    ⧺ "func wrap"
    ⧺ h.method_name
    ⧺ "(agg *"
    ⧺ info.type_name
    ⧺ ") angzarr.RejectionHandler["
    ⧺ (state_or_any info)
    ⧺ "] {\n"
    ⧺ "\treturn func(notification *pb.Notification, state *"
    ⧺ (state_or_any info)
    ⧺ ") (*pb.BusinessResponse, error) {\n"
    ⧺ "\t\treturn agg."
    ⧺ h.method_name
    ⧺ "(notification, state)\n"
    ⧺ "\t}\n"
    ⧺ "}\n")

-- `aggregateTemplate`.
abbrev pub aggregate_template : TypeInfo → String
aggregate_template info =
    aggregate_head info
    ⧺ (each aggregate_on info.handlers)
    ⧺ (each aggregate_on_rejected info.handlers)
    ⧺ "\n"
    ⧺ "}\n"
    ⧺ (each (aggregate_wrap info) info.handlers)
    ⧺ (each (aggregate_wrap_rejected info) info.handlers)
    ⧺ "\n"

-- What the template has before its handlers.
abbrev saga_head : TypeInfo → String
saga_head info =
    "// Code generated by angzarr-gen. DO NOT EDIT.\n" ⧺ "\n" ⧺ "package " ⧺ info.package_name
    ⧺ "\n" ⧺ "\n" ⧺ "import (\n" ⧺ "\tangzarr \"github.com/angzarr/client/go\"\n" ⧺ ")\n" ⧺ "\n"
    ⧺ "// New" ⧺ info.type_name ⧺ "Router creates an EventRouter from the " ⧺ info.type_name
    ⧺ "'s annotated methods.\n" ⧺ "func New" ⧺ info.type_name ⧺ "Router(saga *" ⧺ info.type_name
    ⧺ ") *angzarr.EventRouter {\n" ⧺ "\treturn angzarr.NewEventRouter(\"" ⧺ info.domain ⧺ "\").\n"
    ⧺ "\t\tDomain(saga.InputDomain())"

abbrev saga_on : HandlerInfo → String
saga_on h =
    (if h.is_prepare
      then ".\n" ⧺ "\t\tPrepare(\"" ⧺ h.event_type ⧺ "\", wrap" ⧺ h.method_name ⧺ "Prepare(saga))"
      else when (is_set h.event_type)
          (".\n" ⧺ "\t\tOn(\"" ⧺ h.event_type ⧺ "\", wrap" ⧺ h.method_name ⧺ "(saga))"))

-- `sagaTemplate`.
abbrev pub saga_template : TypeInfo → String
saga_template info = saga_head info ⧺ (each saga_on info.handlers) ⧺ "\n" ⧺ "}\n"

-- `pmTemplate`.
abbrev pub pm_template : TypeInfo → String
pm_template info =
    "// Code generated by angzarr-gen. DO NOT EDIT.\n" ⧺ "\n" ⧺ "package " ⧺ info.package_name
    ⧺ "\n" ⧺ "\n" ⧺ "import (\n" ⧺ "\tangzarr \"github.com/angzarr/client/go\"\n" ⧺ ")\n" ⧺ "\n"
    ⧺ "// New" ⧺ info.type_name ⧺ "Handler creates a ProcessManagerHandler from the "
    ⧺ info.type_name ⧺ "'s annotated methods.\n" ⧺ "func New" ⧺ info.type_name ⧺ "Handler(pm *"
    ⧺ info.type_name ⧺ ") *angzarr.ProcessManagerHandler {\n"
    ⧺ "\thandler := angzarr.NewProcessManagerHandler(\"" ⧺ info.domain ⧺ "\")\n"
    ⧺ "\treturn handler\n" ⧺ "}\n"

-- What the template has before its handlers.
abbrev projector_head : TypeInfo → String
projector_head info =
    "// Code generated by angzarr-gen. DO NOT EDIT.\n" ⧺ "\n" ⧺ "package " ⧺ info.package_name
    ⧺ "\n" ⧺ "\n" ⧺ "import (\n" ⧺ "\tangzarr \"github.com/angzarr/client/go\"\n" ⧺ ")\n" ⧺ "\n"
    ⧺ "// New" ⧺ info.type_name ⧺ "Handler creates a ProjectorHandler from the " ⧺ info.type_name
    ⧺ "'s annotated methods.\n" ⧺ "func New" ⧺ info.type_name ⧺ "Handler(proj *" ⧺ info.type_name
    ⧺ ") *angzarr.ProjectorHandler {\n" ⧺ "\treturn angzarr.NewProjectorHandler(\"" ⧺ info.domain
    ⧺ "\")"

abbrev projector_on : HandlerInfo → String
projector_on h =
    when (is_set h.event_type)
      (".\n" ⧺ "\t\tOn(\"" ⧺ h.event_type ⧺ "\", wrap" ⧺ h.method_name ⧺ "(proj))")

-- `projectorTemplate`.
abbrev pub projector_template : TypeInfo → String
projector_template info = projector_head info ⧺ (each projector_on info.handlers) ⧺ "\n" ⧺ "}\n"
