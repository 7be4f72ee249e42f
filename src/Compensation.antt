-- ===== src/Compensation.antt =====
-- compensation.go: what a rejection notification tells, and the responses to it. Also the two ways
-- in which the routers read the key of a rejected command.
pub mod Keys
use angzarr_client_go.Prelude.{
  ℕ, String, ◌⧺◌, Option, none, some, Bool, true, false, List, [], ◌∷◌, head?,
}
use angzarr_client_go.Proto.{
  Any, Cover, EventBook, CommandPage, CommandBook, PageHeader, AngzarrDeferred, Notification,
  RejectionNotification, RevocationResponse, BusinessResponse, get_angzarr_deferred,
}
use angzarr_client_go.Errors.{Result, ok, err}
use angzarr_client_go.Codec.{Codec}
use angzarr_client_go.Helpers.TypeUrl.{type_name_from_url}

pub record CompensationContext : Type 0 where
  pub source_event_sequence : ℕ
  pub rejection_reason : String
  pub rejected_command : Option CommandBook
  pub source_aggregate : Option Cover

abbrev empty_context : CompensationContext
empty_context = record {
  source_event_sequence = 0;
  rejection_reason = "";
  rejected_command = none;
  source_aggregate = none;
}

-- `rejection.RejectedCommand.Pages[0]`, behind the tests for nil and for no pages.
abbrev pub first_page : Option CommandBook → Option CommandPage
first_page none = none
first_page (some book) = head? book.pages

abbrev deferred_of_header : Option PageHeader → Option AngzarrDeferred
deferred_of_header none = none
deferred_of_header (some header) = get_angzarr_deferred header

abbrev deferred_of : Option CommandPage → Option AngzarrDeferred
deferred_of none = none
deferred_of (some page) = deferred_of_header page.header

abbrev with_source : CompensationContext → Option AngzarrDeferred → CompensationContext
with_source ctx none = ctx
with_source ctx (some deferred) = record ctx {
  source_aggregate = deferred.source;
  source_event_sequence = deferred.source_seq;
}

abbrev context_of : Result RejectionNotification → CompensationContext
context_of (err e) = empty_context
context_of (ok rejection) =
    with_source
      (record empty_context {
        rejection_reason = rejection.rejection_reason;
        rejected_command = rejection.rejected_command;
      })
      (deferred_of (first_page rejection.rejected_command))

abbrev context_of_payload : Codec → Option Any → CompensationContext
context_of_payload codec none = empty_context
context_of_payload codec (some payload) = context_of (codec.unmarshal_rejection payload.value)

-- `NewCompensationContext`.
pub new_compensation_context : Codec → Notification → CompensationContext
new_compensation_context codec notification = context_of_payload codec notification.payload

abbrev pub command_of : Option CommandPage → Option Any
command_of none = none
command_of (some page) = page.command

abbrev type_url_or_empty : Option Any → String
type_url_or_empty none = ""
type_url_or_empty (some cmd) = cmd.type_url

-- `RejectedCommandType`.
pub rejected_command_type : CompensationContext → String
rejected_command_type ctx = type_url_or_empty (command_of (first_page ctx.rejected_command))

-- `DelegateToFrameworkWithOptions`.
abbrev delegate_to_framework_with_options :
    String → (emit_system_event send_to_dlq escalate abort : Bool) → BusinessResponse
delegate_to_framework_with_options reason emit_system_event send_to_dlq escalate abort =
    BusinessResponse.revocation (record {
      emit_system_revocation = emit_system_event;
      send_to_dead_letter_queue = send_to_dlq;
      escalate = escalate;
      abort = abort;
      reason = reason;
    })

-- `DelegateToFramework`.
abbrev pub delegate_to_framework : String → BusinessResponse
delegate_to_framework reason = BusinessResponse.revocation (record {
  emit_system_revocation = true;
  send_to_dead_letter_queue = false;
  escalate = false;
  abort = false;
  reason = reason;
})

-- `EmitCompensationEvents`.
abbrev emit_compensation_events : Option EventBook → BusinessResponse
emit_compensation_events book = BusinessResponse.events book

-- `RejectionHandlerResponse`.
pub record RejectionHandlerResponse : Type 0 where
  pub events : Option EventBook
  pub notification : Option Notification

-- `PMRevocationResponse`.
pub record PmRevocationResponse : Type 0 where
  pub process_events : Option EventBook
  pub revocation : RevocationResponse

-- `PMEmitCompensationEvents`.
abbrev pm_emit_compensation_events :
    Option EventBook → (also_emit_system_event : Bool) → String → PmRevocationResponse
pm_emit_compensation_events book also_emit_system_event reason = record {
  process_events = book;
  revocation = record {
    emit_system_revocation = also_emit_system_event;
    send_to_dead_letter_queue = false;
    escalate = false;
    abort = false;
    reason = reason;
  };
}

-- `PMDelegateToFramework`.
abbrev pm_delegate_to_framework : String → PmRevocationResponse
pm_delegate_to_framework reason = pm_emit_compensation_events none true reason

abbrev domain_of_cover : Option Cover → String
domain_of_cover none = ""
domain_of_cover (some cover) = cover.domain

abbrev type_name_or_empty : Option Any → String
type_name_or_empty none = ""
type_name_or_empty (some cmd) = type_name_from_url cmd.type_url

-- `extractRejectionKey` of pm_oo.go.
abbrev key_of_command : Option CommandBook → String × String
key_of_command none = ("", "")
key_of_command (some book) =
    (domain_of_cover book.cover, type_name_or_empty (command_of (head? book.pages)))

unfoldable pub extract_rejection_key : RejectionNotification → String × String
extract_rejection_key rejection = key_of_command rejection.rejected_command

-- The key that `dispatchRejection` of router.go and aggregate_oo.go reads: both parts are empty
-- unless the rejected command has a page.
abbrev key_of_pages : Option Cover → List CommandPage → String × String
key_of_pages cover [] = ("", "")
key_of_pages cover (page ∷ pages) = (domain_of_cover cover, type_name_or_empty page.command)

abbrev key_of_rejected : Option CommandBook → String × String
key_of_rejected none = ("", "")
key_of_rejected (some book) = key_of_pages book.cover book.pages

unfoldable pub dispatch_key : RejectionNotification → String × String
dispatch_key rejection = key_of_rejected rejection.rejected_command

-- `domain + "/" + command`.
abbrev pub rejection_key : String → String → String
rejection_key domain command = domain ⧺ "/" ⧺ command
