-- ===== src/Validation/Input.antt =====
-- `validateInput` of fe/src/lib/security/inputValidation.ts. `is_url` is what the browser's URL accepts.
pub mod Valid
use rr_net.Prelude.{
  ℕ, ◌==◌, ◌≡◌, ltb, Bool, true, false, not, ◌&&◌, ◌||◌, List, [], ◌∷◌, ◌++◌, Option, none, some,
  Text, String, length, all, if◌then◌else◌,
}
use rr_net.Validation.Patterns.{
  is_white, validate_email, validate_phone, validate_sql_injection, validate_xss,
}

pub data InputType : Type 0 where
  email phone url text : InputType

-- `sanitize` is left out, as it is never read.
pub record Options : Type 0 where
  pub required : Bool
  pub min_length : Option ℕ
  pub max_length : Option ℕ
  pub type : Option InputType

-- The texts of the errors, with the number that a text gives.
pub data ErrorText : Type 0 where
  is_required invalid_email invalid_phone invalid_url dangerous : ErrorText
  at_least at_most : ℕ → ErrorText

pub record ValidationResult : Type 0 where
  pub valid : Bool
  pub errors : List ErrorText

abbrev pub is_blank : Text → Bool
is_blank input = all is_white input

-- A bound of 0 counts as none.
abbrev pub too_short : Option ℕ → Text → Bool
too_short none input = false
too_short (some n) input = not (n == 0) && ltb (length input) n

abbrev pub too_long : Option ℕ → Text → Bool
too_long none input = false
too_long (some n) input = not (n == 0) && ltb n (length input)

abbrev pub error_if : Bool → ErrorText → List ErrorText
error_if b e = if b then e ∷ [] else []

abbrev pub bound : Option ℕ → (ℕ → ErrorText) → Bool → List ErrorText
bound none e b = []
bound (some n) e b = error_if b (e n)

abbrev pub is_empty : List ErrorText → Bool
is_empty [] = true
is_empty (e ∷ es) = false

module _ (is_url : Text → Bool) where
  -- The errors of the input's type.
  unfoldable pub type_errors : Option InputType → Text → List ErrorText
  type_errors (some email) input = error_if (not (validate_email input)) invalid_email
  type_errors (some phone) input = error_if (not (validate_phone input)) invalid_phone
  type_errors (some url) input = error_if (not (is_url input)) invalid_url
  type_errors (some text) input = []
  type_errors none input = []

  unfoldable pub input_errors : Text → Options → List ErrorText
  unfolding type_errors
  input_errors input o =
      bound o.min_length at_least (too_short o.min_length input)
      ++ bound o.max_length at_most (too_long o.max_length input)
      ++ type_errors o.type input
      ++ error_if (not (validate_sql_injection input)) dangerous
      ++ error_if (not (validate_xss input)) dangerous

  unfoldable pub validate_input : Text → Options → ValidationResult
  unfolding input_errors
  validate_input input o =
      if o.required && is_blank input
      then record { valid = false; errors = is_required ∷ [] }
      else (let errors = input_errors input o in
          record { valid = is_empty errors; errors = errors })
