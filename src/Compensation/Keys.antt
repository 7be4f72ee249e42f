-- ===== src/Compensation/Keys.antt =====
-- The keys of rejected commands in router.go, aggregate_oo.go and pm_oo.go, and compensation contexts.
use text.Mathlib.TextLemmas.{append_cancel_right}
use angzarr_client_go.Prelude.{
  String, ◌⧺◌, Option, none, some, List, [], ◌∷◌, ◌≡◌, refl, sym, ap, ◌∙◌, arith, Lacks, after_last,
  after_last-append,
}
use angzarr_client_go.Proto.{Any, CommandBook, CommandPage, RejectionNotification, Notification}
use angzarr_client_go.Errors.{ok}
use angzarr_client_go.Codec.{Codec}
use angzarr_client_go.Helpers.TypeUrl.{type_name_from_url}
use angzarr_client_go.Helpers.TypeUrl.Matching.{type_name_from_url-Lacks}
use angzarr_client_go.Compensation.{
  key_of_rejected, key_of_pages, extract_rejection_key, dispatch_key, rejection_key,
  new_compensation_context, rejected_command_type, type_name_or_empty, first_page,
}

-- Where the rejected command has a page, `extractRejectionKey` and the code of `dispatchRejection`
-- read the same domain and command type.
extract_rejection_key-eq-dispatch_key :
    (rejection : RejectionNotification) (page : CommandPage)
    → first_page rejection.rejected_command ≡ some page
    → extract_rejection_key rejection ≡ dispatch_key rejection
unfolding extract_rejection_key dispatch_key
extract_rejection_key-eq-dispatch_key rejection page e = ground arith

type_name_or_empty-Lacks : (o : Option Any) → Lacks b'/' (type_name_or_empty o)
type_name_or_empty-Lacks none = tt
type_name_or_empty-Lacks (some cmd) = type_name_from_url-Lacks cmd.type_url

pub dispatch_key-Lacks : (rejection : RejectionNotification) → Lacks b'/' (dispatch_key rejection).1
unfolding dispatch_key
dispatch_key-Lacks rejection = go rejection.rejected_command
  where
    go : (o : Option CommandBook) → Lacks b'/' (key_of_rejected o).1
    go none = tt
    go (some book) = pages book.pages
      where
        pages : (ps : List CommandPage) → Lacks b'/' (key_of_pages book.cover ps).1
        pages [] = tt
        pages (p ∷ ps) = type_name_or_empty-Lacks p.command

after_last-rejection_key :
    (domain command : String)
    → Lacks b'/' command
    → after_last b'/' (rejection_key domain command) ≡ some command
after_last-rejection_key domain command h = after_last-append b'/' domain "/" command refl h

-- Two keys whose command names have no slash are one only for one domain and one command.
pub rejection_key-injective :
    (d e c k : String)
    → Lacks b'/' c
    → Lacks b'/' k
    → rejection_key d c ≡ rejection_key e k
    → (d ≡ e) × (c ≡ k)
rejection_key-injective d e c k hc hk same =
    let commands : c ≡ k =
      cc (same, after_last-rejection_key d c hc, after_last-rejection_key e k hk) in
    (append_cancel_right d e ("/" ⧺ c) (same ∙ ap (λ s. e ⧺ "/" ⧺ s) (sym commands)), commands)

-- The type that a compensation context gives for the rejected command is the one that names the
-- command in the key of the same notification.
rejected_command_type-names_key :
    (codec : Codec) (notification : Notification) (payload : Any)
    (rejection : RejectionNotification) (page : CommandPage) (cmd : Any)
    → notification.payload ≡ some payload
    → codec.unmarshal_rejection payload.value ≡ ok rejection
    → first_page rejection.rejected_command ≡ some page
    → page.command ≡ some cmd
    → type_name_from_url (rejected_command_type (new_compensation_context codec notification))
      ≡ (extract_rejection_key rejection).1
unfolding rejected_command_type new_compensation_context extract_rejection_key
rejected_command_type-names_key codec notification payload rejection page cmd np ok_r pg pc =
    ground arith
