-- ===== src/CloudEvents/Base.antt =====
-- cloudevents.go: `CloudEventsProjectorBase`, which holds a router that `Init` sets. Before `Init`
-- the router is nil and the methods would panic: the model's base is one after it.
use angzarr_client_go.Prelude.{String, Option, List}
use angzarr_client_go.Proto.{Bytes, Any, EventBook, Projection}
use angzarr_client_go.Errors.{Result}
use angzarr_client_go.CloudEvents.{
  CloudEventsRouter, new_cloud_events_router, on, on_suffix, project, projector_base_handle,
}

-- `CloudEventsProjectorBase`.
pub record CloudEventsProjectorBase (C : Type 0) : Type 0 where
  pub router : CloudEventsRouter C

module _ {C : Type 0} where
  -- `Init`.
  abbrev pub init : (name input_domain : String) → CloudEventsProjectorBase C
  init name input_domain = record { router = new_cloud_events_router name input_domain }

  -- `Name`.
  abbrev pub name_of : CloudEventsProjectorBase C → String
  name_of p = p.router.name

  -- `InputDomain`.
  abbrev pub input_domain_of : CloudEventsProjectorBase C → String
  input_domain_of p = p.router.input_domain

  -- `On`.
  abbrev base_on :
      {E : Type 0}
      → CloudEventsProjectorBase C
      → String
      → (Bytes → Result E)
      → (E → Option C)
      → CloudEventsProjectorBase C
  base_on p full_name unmarshal handler = record p {
    router = on p.router full_name unmarshal handler;
  }

  -- `OnSuffix`.
  abbrev base_on_suffix :
      CloudEventsProjectorBase C → String → (Any → Option C) → CloudEventsProjectorBase C
  base_on_suffix p suffix handler = record p { router = on_suffix p.router suffix handler }

  -- `Project`.
  abbrev base_project : CloudEventsProjectorBase C → Option EventBook → List C
  base_project p source = project p.router source

  -- `Handle`.
  abbrev pub base_handle :
      (pack : List C → Result Any)
      → CloudEventsProjectorBase C
      → Option EventBook
      → Result Projection
  base_handle pack p source = projector_base_handle pack p.router source
