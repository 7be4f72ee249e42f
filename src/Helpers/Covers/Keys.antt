-- ===== src/Helpers/Covers/Keys.antt =====
-- `CacheKey`, `RootUUID` and `NewCover` of helpers.go.
use text.Mathlib.TextLemmas.{append_cancel_right}
use angzarr_client_go.Prelude.{
  String, ◌⧺◌, Option, none, some, true, ◌≡◌, refl, sym, ap, ◌∙◌, Lacks, after_last,
  after_last-append,
}
use angzarr_client_go.Proto.{Bytes}
use angzarr_client_go.Helpers.Hex.{hex_encode-Lacks, IsBytes}
use angzarr_client_go.Helpers.Uuid.{UuidLib, UuidLaws}
use angzarr_client_go.Helpers.Covers.{
  hex_or_empty, CoverBearing, cover, cover_of, root_bytes, domain, root_id_hex, cache_key,
  root_uuid, new_cover,
}

-- The bytes of a root, where there is one, are bytes.
abbrev pub HasByteRoot : Option Bytes → Type 0
HasByteRoot none = Unit
HasByteRoot (some b) = IsBytes b

hex_or_empty-Lacks : (o : Option Bytes) → HasByteRoot o → Lacks b':' (hex_or_empty o)
hex_or_empty-Lacks none h = tt
hex_or_empty-Lacks (some b) h = hex_encode-Lacks b h

after_last-cache_key :
    (v : CoverBearing)
    → HasByteRoot (root_bytes (cover_of v))
    → after_last b':' (cache_key v) ≡ some (root_id_hex v)
unfolding cache_key
after_last-cache_key v h =
    after_last-append b':' (domain v) ":" (root_id_hex v) refl
      (hex_or_empty-Lacks (root_bytes (cover_of v)) h)

-- Two values whose roots, where they have one, consist of bytes, and which have one cache key, have
-- one domain and one root ID.
pub cache_key-injective :
    (v w : CoverBearing)
    → HasByteRoot (root_bytes (cover_of v))
    → HasByteRoot (root_bytes (cover_of w))
    → cache_key v ≡ cache_key w
    → (domain v ≡ domain w) × (root_id_hex v ≡ root_id_hex w)
unfolding cache_key
cache_key-injective v w hv hw e =
    let same : root_id_hex v ≡ root_id_hex w =
      cc (e, after_last-cache_key v hv, after_last-cache_key w hw) in
    (
      append_cancel_right (domain v) (domain w) (":" ⧺ root_id_hex v)
          (e ∙ ap (λ s. domain w ⧺ ":" ⧺ s) (sym same)),
      same,
    )

-- The root of a new cover is read back.
root_uuid-new_cover :
    (lib : UuidLib) (laws : UuidLaws lib) (d : String) (u : UuidLib.Uuid lib) (id : String)
    → root_uuid lib (cover (some (new_cover lib d u id))) ≡ (u, true)
unfolding root_uuid
root_uuid-new_cover lib laws d u id = rw (laws.from_bytes-bytes u)
