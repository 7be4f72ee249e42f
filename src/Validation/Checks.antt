-- ===== src/Validation/Checks.antt =====
-- The checks of validation.go and their conditions.
use angzarr_client_go.Prelude.{
  ℕ, zero, suc, String, none, some, Bool, true, false, List, [], ◌∷◌, ◌≡◌, ◌≢◌, ◌↔◌, refl, str_eq,
  eq_iff, Bool-cases, inl, inr,
}
use angzarr_client_go.Errors.{new_command_rejected_error}
use angzarr_client_go.Helpers.Editions.{ℤ, pos, negsuc}
use angzarr_client_go.Validation.{
  require_exists, require_not_exists, require_positive, require_non_negative,
  require_not_empty_string, require_not_empty, require_status, require_status_not,
}

-- Greater than zero, and not less than zero.
abbrev pub IsPositive : ℤ → Type 0
IsPositive z = (n : ℕ) × (z ≡ pos (suc n))

abbrev pub IsNonNegative : ℤ → Type 0
IsNonNegative z = (n : ℕ) × (z ≡ pos n)

IsPositive-iff : (z : ℤ) (name : String) → (require_positive z name ≡ none) ↔ IsPositive z
IsPositive-iff (pos zero) name = (λ h. absurd (cc h), λ (n, h). absurd (cc h))
IsPositive-iff (pos (suc n)) name = (λ h. (n, refl), λ h. refl)
IsPositive-iff (negsuc n) name = (λ h. absurd (cc h), λ (m, h). absurd (cc h))

IsNonNegative-iff : (z : ℤ) (name : String) → (require_non_negative z name ≡ none) ↔ IsNonNegative z
IsNonNegative-iff (pos n) name = (λ h. (n, refl), λ h. refl)
IsNonNegative-iff (negsuc n) name = (λ h. absurd (cc h), λ (m, h). absurd (cc h))

exists_iff :
    (exists : Bool) (message : String) → (require_exists exists message ≡ none) ↔ (exists ≡ true)
exists_iff true message = (λ h. refl, λ h. refl)
exists_iff false message = (λ h. absurd (cc h), λ h. absurd (cc h))

not_exists_iff :
    (exists : Bool) (message : String)
    → (require_not_exists exists message ≡ none) ↔ (exists ≡ false)
not_exists_iff true message = (λ h. absurd (cc h), λ h. absurd (cc h))
not_exists_iff false message = (λ h. refl, λ h. refl)

not_empty_string_iff :
    (value name : String) → (require_not_empty_string value name ≡ none) ↔ (value ≢ "")
not_empty_string_iff value name = elim (Bool-cases (str_eq value "")) [
  | inl blank ↦ (λ h. absurd (cc (blank, h)), λ h. absurd (h ((eq_iff value "").0 blank)))
  | inr some_text ↦ (λ h e. cc (some_text, (eq_iff value "").1 e), λ h. rw some_text)
]

not_empty_iff :
    {T : Type 0} (items : List T) (name : String)
    → (require_not_empty items name ≡ none) ↔ (items ≢ [])
not_empty_iff [] name = (λ h. absurd (cc h), λ h. absurd (h refl))
not_empty_iff (x ∷ items) name = (λ h e. cc e, λ h. refl)

module _ {T : Type 0} (equal? : (a b : T) → Dec (a ≡ b)) where
  status_iff :
      (actual expected : T) (message : String)
      → (require_status equal? actual expected message ≡ none) ↔ (actual ≡ expected)
  status_iff actual expected message = go (equal? actual expected)
    where
      go :
          (d : Dec (actual ≡ expected))
          → (elim d [ yes same ↦ none | no differ ↦ some (new_command_rejected_error message) ]
              ≡ none)
            ↔ (actual ≡ expected)
      go (yes same) = (λ h. same, λ h. refl)
      go (no differ) = (λ h. absurd (cc h), λ h. absurd (differ h))

  status_not_iff :
      (actual forbidden : T) (message : String)
      → (require_status_not equal? actual forbidden message ≡ none) ↔ (actual ≢ forbidden)
  status_not_iff actual forbidden message = go (equal? actual forbidden)
    where
      go :
          (d : Dec (actual ≡ forbidden))
          → (elim d [ yes same ↦ some (new_command_rejected_error message) | no differ ↦ none ]
              ≡ none)
            ↔ (actual ≢ forbidden)
      go (yes same) = (λ h. absurd (cc h), λ h. absurd (h same))
      go (no differ) = (λ h. differ, λ h. refl)

  -- Each check passes exactly when its condition holds: the aggregate exists, or does not; the
  -- number is greater than zero, or not less than zero; the text or the list is not empty; the
  -- status is the expected one, or is not the forbidden one.
  pub checks_iff :
      (exists : Bool) (number : ℤ) (value : String) (items : List T) (actual other : T)
      (message : String)
      → ((require_exists exists message ≡ none) ↔ (exists ≡ true))
        × ((require_not_exists exists message ≡ none) ↔ (exists ≡ false))
        × ((require_positive number message ≡ none) ↔ IsPositive number)
        × ((require_non_negative number message ≡ none) ↔ IsNonNegative number)
        × ((require_not_empty_string value message ≡ none) ↔ (value ≢ ""))
        × ((require_not_empty items message ≡ none) ↔ (items ≢ []))
        × ((require_status equal? actual other message ≡ none) ↔ (actual ≡ other))
        × ((require_status_not equal? actual other message ≡ none) ↔ (actual ≢ other))
  checks_iff exists number value items actual other message = (
    exists_iff exists message,
    not_exists_iff exists message,
    IsPositive-iff number message,
    IsNonNegative-iff number message,
    not_empty_string_iff value message,
    not_empty_iff items message,
    status_iff actual other message,
    status_not_iff actual other message,
  )
