-- ===== src/Builder/Commands.antt =====
-- `CommandBuilder.Build` of builder.go.
use angzarr_client_go.Prelude.{
  String, Option, none, some, true, false, ◌≡◌, ◌≢◌, refl, ap, ◌∙◌, str_eq, eq_iff, if◌then◌else◌,
  Bool-cases, inl, inr,
}
use angzarr_client_go.Proto.{Bytes, CommandBook}
use angzarr_client_go.Errors.{Error, ok}
use angzarr_client_go.Helpers.Uuid.{UuidLib}
use angzarr_client_go.Builder.{CommandBuilder, command_book, build, build_checked, build_payload}

-- What a builder needs for a build: no failed call, a type URL, a payload and a sequence.
pub record IsComplete {lib : UuidLib} (b : CommandBuilder lib) (payload : Bytes) : Type 0 where
  pub no_error : b.error ≡ none
  pub typed : b.type_url ≢ ""
  pub paid : b.payload ≡ some payload
  pub sequenced : b.sequence_set ≡ true

untyped : {s : String} → s ≢ "" → str_eq s "" ≡ false
untyped {s} h = elim (Bool-cases (str_eq s "")) [
  | inl same ↦ absurd (h ((eq_iff s "").0 same))
  | inr differ ↦ differ
]

module _ {lib : UuidLib} (b : CommandBuilder lib) (fresh : UuidLib.Uuid lib) where
  -- A builder with no failed call, a type URL, a payload and a sequence builds the command book of
  -- its fields, with a new correlation id if it has none.
  pub build_of_IsComplete :
      (payload : Bytes)
      → IsComplete b payload
      → build b fresh
        ≡ ok (
            command_book b
              (if str_eq b.correlation_id "" then UuidLib.text lib fresh else b.correlation_id)
              payload)
  unfolding build
  build_of_IsComplete payload h =
      let named : str_eq b.type_url "" ≡ false = untyped h.typed in
      ap (build_checked b fresh) h.no_error
      ∙ rw named (ap (build_payload b fresh) h.paid ∙ rw h.sequenced)

  payload-ok :
      (o : Option Bytes) (book : CommandBook)
      → build_payload b fresh o ≡ ok book
      → (payload : Bytes) × (o ≡ some payload) × (b.sequence_set ≡ true)
  payload-ok none book h = absurd (cc h)
  payload-ok (some payload) book h = elim (Bool-cases b.sequence_set) [
    | inl set ↦ (payload, refl, set)
    | inr unset ↦ absurd (cc (unset, h))
  ]

  -- A build that succeeds was asked of a builder with no failed call, a type URL, a payload and a
  -- sequence.
  pub IsComplete-of_build :
      (book : CommandBook) → build b fresh ≡ ok book → (payload : Bytes) × IsComplete b payload
  unfolding build
  IsComplete-of_build book h = go b.error refl h
    where
      go :
          (o : Option Error)
          → b.error ≡ o
          → build_checked b fresh o ≡ ok book
          → (payload : Bytes) × IsComplete b payload
      go (some e) he hb = absurd (cc hb)
      go none he hb = elim (Bool-cases (str_eq b.type_url "")) [
        | inl blank ↦ absurd (cc (blank, hb))
        | inr named ↦
            let (payload, paid, set) = payload-ok b.payload book (rw named at hb) in
            (
              payload,
              record {
                no_error = he;
                typed = λ e. cc (named, (eq_iff b.type_url "").1 e);
                paid = paid;
                sequenced = set;
              },
            )
      ]
