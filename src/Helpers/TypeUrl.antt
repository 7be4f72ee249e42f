-- ===== src/Helpers/TypeUrl.antt =====
-- The type URL helpers of helpers.go, and the loop over registrations that all routers share.
pub mod Matching
pub mod Named
use angzarr_client_go.Prelude.{
  String, ◌⧺◌, Option, none, some, Bool, List, [], ◌∷◌, str_eq, if◌then◌else◌, after_last,
}

-- `TypeURLPrefix`.
abbrev pub type_url_prefix : String
type_url_prefix = "type.googleapis.com/"

-- `NotificationTypeName` of compensation.go, which the routers also write out.
abbrev pub notification_type_name : String
notification_type_name = "angzarr_client.proto.angzarr.Notification"

-- `TypeURL`.
abbrev pub type_url : (package_name type_name : String) → String
type_url package_name type_name = type_url_prefix ⧺ package_name ⧺ "." ⧺ type_name

-- `TypeNameFromURL`.
unfoldable pub type_name_from_url : String → String
type_name_from_url url = elim (after_last b'/' url) [ some name ↦ name | none ↦ url ]

-- `TypeURLMatches`.
abbrev pub type_url_matches : (url type_name : String) → Bool
type_url_matches url type_name = str_eq url (type_url_prefix ⧺ type_name)

-- `IsNotification` of compensation.go.
abbrev pub is_notification : String → Bool
is_notification url = str_eq url (type_url_prefix ⧺ notification_type_name)

-- A slice of registrations with their full names, or a map from full names in the order of a range.
abbrev pub Registrations {ℓ} : Type ℓ → Type ℓ
Registrations H = List (String × H)

-- `for _, reg := range handlers { if typeURL == TypeURLPrefix+reg.fullName { … } }`, where the body
-- leaves the loop: the handler that it reaches.
unfoldable pub match_type {ℓ} : {H : Type ℓ} → String → Registrations H → Option H
match_type url [] = none
match_type url ((name, h) ∷ regs) =
    if str_eq url (type_url_prefix ⧺ name) then some h else match_type url regs
