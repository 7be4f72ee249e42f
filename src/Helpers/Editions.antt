-- ===== src/Helpers/Editions.antt =====
-- The edition helpers of helpers.go.
pub mod Laws
use Prim.Native.Nat.{ℕ}
use angzarr_client_go.Prelude.{
  String, Option, none, some, Bool, true, false, ◌||◌, List, [], ◌∷◌, str_eq, if◌then◌else◌,
}
use angzarr_client_go.Proto.{ProtoEdition, DomainDivergence}

-- `int64` results; `negsuc n` is -(n + 1).
pub data ℤ : Type 0 where
  pos : ℕ → ℤ
  negsuc : ℕ → ℤ

-- `DefaultEdition`.
abbrev default_edition : String
default_edition = "angzarr"

-- `MainTimeline`.
abbrev main_timeline : ProtoEdition
main_timeline = record { name = default_edition; divergences = [] }

-- `ImplicitEdition`.
abbrev pub implicit_edition : String → ProtoEdition
implicit_edition name = record { name = name; divergences = [] }

-- `ExplicitEdition`.
abbrev pub explicit_edition : String → List DomainDivergence → ProtoEdition
explicit_edition name divergences = record { name = name; divergences = divergences }

-- `IsMainTimeline`.
is_main_timeline : Option ProtoEdition → Bool
is_main_timeline none = true
is_main_timeline (some e) = str_eq e.name "" || str_eq e.name default_edition

-- The loop of `DivergenceFor`.
pub divergence_in : String → List DomainDivergence → ℤ
divergence_in domain [] = negsuc 0
divergence_in domain (d ∷ ds) =
    if str_eq d.domain domain then pos d.sequence else divergence_in domain ds

-- `DivergenceFor`.
pub divergence_for : Option ProtoEdition → String → ℤ
unfolding divergence_in
divergence_for none domain = negsuc 0
divergence_for (some e) domain = divergence_in domain e.divergences
