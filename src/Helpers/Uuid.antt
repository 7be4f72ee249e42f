-- ===== src/Helpers/Uuid.antt =====
-- The UUID helpers of helpers.go. The type and its functions are those of github.com/google/uuid,
-- which is not part of the repository: they are the parameter `UuidLib`.
use angzarr_client_go.Prelude.{String, Option, none, some, length, if◌then◌else◌, ◌==◌, ◌≡◌}
use angzarr_client_go.Proto.{Bytes, ProtoUuid}
use angzarr_client_go.Errors.{Result, ok, err, plain}
use angzarr_client_go.Helpers.Hex.{hex_encode}

pub record UuidLib : Type 1 where
  pub Uuid : Type 0
  -- `uuid.UUID{}`.
  pub zero_uuid : Uuid
  -- `u[:]`.
  pub bytes : Uuid → Bytes
  -- `uuid.FromBytes`.
  pub from_bytes : Bytes → Result Uuid
  -- `u.String()`.
  pub text : Uuid → String

module _ (lib : UuidLib) where
  open lib use {Uuid, zero_uuid, bytes, from_bytes, text}

  -- What the package documents: `FromBytes` copies its argument, and refuses one that is not of
  -- sixteen bytes.
  pub record UuidLaws : Type 0 where
    pub from_bytes-bytes : (u : Uuid) → from_bytes (bytes u) ≡ ok u
    pub bytes-from_bytes : (b : Bytes) (u : Uuid) → from_bytes b ≡ ok u → bytes u ≡ b
    pub length-bytes : (u : Uuid) → length (bytes u) ≡ 16
    pub from_bytes_total : (b : Bytes) → length b ≡ 16 → (u : Uuid) × (from_bytes b ≡ ok u)

  -- `UUIDToProto`.
  abbrev pub uuid_to_proto : Uuid → ProtoUuid
  uuid_to_proto u = record { value = bytes u }

  -- `ProtoToUUID`.
  abbrev proto_to_uuid : Option ProtoUuid → Result Uuid
  proto_to_uuid none = err (plain "nil UUID")
  proto_to_uuid (some u) = from_bytes u.value

  -- `BytesToUUIDText`.
  abbrev uuid_text_or_hex : Bytes → Result Uuid → String
  uuid_text_or_hex b (ok u) = text u
  uuid_text_or_hex b (err e) = hex_encode b

  abbrev pub bytes_to_uuid_text : Bytes → String
  bytes_to_uuid_text b = if length b == 16 then uuid_text_or_hex b (from_bytes b) else hex_encode b

  -- `ProtoUUIDToText`.
  abbrev proto_uuid_to_text : Option ProtoUuid → String
  proto_uuid_to_text none = ""
  proto_uuid_to_text (some u) = bytes_to_uuid_text u.value
