-- ===== src/Helpers/Hex.antt =====
-- `hex.EncodeToString`: two lower-case digits for each byte.
use Prim.Native.Char.{Char, code}
use text.Mathlib.TextLemmas.{nil≢cons, cons≢nil}
use mathlib.Core.Path.{subst}
use angzarr_client_go.Prelude.{
  Bool-cases, inl, inr, ltb→lt, ℕ, zero, suc, ◌/◌, ◌%◌, ◌-◌, ◌<◌, String, Bool, true, ◌&&◌, ◌≡◌,
  refl, ◌≢◌, arith, [], ◌∷◌, ltb, ◌==◌, not, if◌then◌else◌, Lacks, ==_iff, All, ap,
}
use angzarr_client_go.Proto.{Bytes}

-- The character at an index; the last one, beyond the end.
abbrev char_or_last : Char → String → ℕ → Char
char_or_last d String.[] n = d
char_or_last d (String.◌∷◌ c s) zero = c
char_or_last d (String.◌∷◌ c s) (suc n) = char_or_last c s n

hex_digit : ℕ → Char
hex_digit n = char_or_last "0" "0123456789abcdef" n

abbrev hex_pair : ℕ → String → String
hex_pair b s = String.◌∷◌ (hex_digit (b / 16)) (String.◌∷◌ (hex_digit (b % 16)) s)

unfoldable pub hex_encode : Bytes → String
unfolding hex_digit
hex_encode [] = ""
hex_encode (b ∷ bs) = hex_pair b (hex_encode bs)

-- What a digit stands for.
digit_value : ℕ → ℕ
digit_value c = if ltb c 58 then c - 48 else c - 87

-- Whether a test holds of every digit from `n` down.
holds_to : (test : ℕ → Bool) → ℕ → Bool
holds_to test zero = test 0
holds_to test (suc n) = holds_to test n && test (suc n)

holds_to-at : (test : ℕ → Bool) (n d : ℕ) → holds_to test n ≡ true → d < suc n → test d ≡ true
unfolding holds_to
holds_to-at test zero d all small = subst (λ k. test k ≡ true) (omega (arith, small)) all
holds_to-at test (suc n) d all small = elim (Bool-cases (ltb d (suc n))) [
  | inl below ↦ holds_to-at test n d (ground (arith, all)) (ltb→lt d (suc n) below)
  | inr top ↦ ground (arith, all, top, small)
]

digit_table : holds_to (λ n. digit_value (code (hex_digit n)) == n) 15 ≡ true
unfolding holds_to digit_value hex_digit
digit_table = refl

colon_table : holds_to (λ n. not (code (hex_digit n) == b':')) 15 ≡ true
unfolding holds_to hex_digit
colon_table = refl

hex_digit_value : (n : ℕ) → n < 16 → digit_value (code (hex_digit n)) ≡ n
hex_digit_value n h =
    (==_iff _ n).0 (holds_to-at (λ k. digit_value (code (hex_digit k)) == k) 15 n digit_table h)

hex_digit-ne-colon : (n : ℕ) → n < 16 → code (hex_digit n) ≢ b':'
hex_digit-ne-colon n h =
    ground (arith, holds_to-at (λ k. not (code (hex_digit k) == b':')) 15 n colon_table h)

-- Every element is a byte.
abbrev pub IsBytes : Bytes → Type 0
IsBytes = All (λ b. b < 256)

-- The digits hold no colon.
pub hex_encode-Lacks : (bs : Bytes) → IsBytes bs → Lacks b':' (hex_encode bs)
unfolding hex_encode
hex_encode-Lacks [] h = tt
hex_encode-Lacks (b ∷ bs) (h, hs) = (
  hex_digit-ne-colon (b / 16) (omega arith),
  (hex_digit-ne-colon (b % 16) (omega arith), hex_encode-Lacks bs hs),
)

abbrev value_at : String → ℕ
value_at String.[] = 0
value_at (String.◌∷◌ c s) = digit_value (code c)

abbrev drop_one : String → String
drop_one String.[] = String.[]
drop_one (String.◌∷◌ c s) = s

byte-eq : (a b : ℕ) → a / 16 ≡ b / 16 → a % 16 ≡ b % 16 → a ≡ b
byte-eq a b h k = omega arith

-- Two byte strings with the same digits are the same.
hex_encode-injective :
    (xs ys : Bytes) → IsBytes xs → IsBytes ys → hex_encode xs ≡ hex_encode ys → xs ≡ ys
hex_encode-injective [] [] h k e = refl
hex_encode-injective [] (b ∷ ys) h k e = unfold hex_encode in absurd (nil≢cons e)
hex_encode-injective (a ∷ xs) [] h k e = unfold hex_encode in absurd (cons≢nil e)
hex_encode-injective (a ∷ xs) (b ∷ ys) (ha, h) (hb, k) e =
    let e' : hex_pair a (hex_encode xs) ≡ hex_pair b (hex_encode ys) = unfold hex_encode in e in
    let high = ap value_at e' in
    let low = ap (λ s. value_at (drop_one s)) e' in
    let rest = ap (λ s. drop_one (drop_one s)) e' in
    let same =
      byte-eq a b
        (cc (hex_digit_value (a / 16) (omega arith), hex_digit_value (b / 16) (omega arith)))
        (cc (hex_digit_value (a % 16) (omega arith), hex_digit_value (b % 16) (omega arith))) in
    cc (same, hex_encode-injective xs ys h k rest)
