-- ===== src/Validation/Input/Valid.antt =====
-- Which inputs `validateInput` of fe/src/lib/security/inputValidation.ts accepts.
use rr_net.Prelude.{
  ℕ, ◌≡◌, refl, Bool, true, false, not, ◌&&◌, ◌||◌, List, [], ◌∷◌, ◌++◌, Option, none, some, Text,
  arith, Bool-cases, inl, inr,
}
use rr_net.Validation.Patterns.{has_command, has_mark, validate_email, validate_phone, validate_xss}
use rr_net.Validation.Laws.{validate_sql_injection_lem}
use rr_net.Validation.Input.{
  at_least, at_most, InputType, Options, ErrorText, email, phone, url, text, is_blank, too_short,
  too_long, is_empty, error_if, bound, type_errors, input_errors, validate_input,
}

abbrev pub fits : (is_url : Text → Bool) → Option InputType → Text → Bool
fits is_url (some email) input = validate_email input
fits is_url (some phone) input = validate_phone input
fits is_url (some url) input = is_url input
fits is_url (some text) input = true
fits is_url none input = true

-- The input passes every test that the options ask for, and has no command, mark or tag.
abbrev pub accepts : (is_url : Text → Bool) → Text → Options → Bool
accepts is_url input o =
    not (o.required && is_blank input)
    && not (too_short o.min_length input)
    && not (too_long o.max_length input)
    && fits is_url o.type input
    && not (has_command input || has_mark input)
    && validate_xss input

is_empty-append : (a b : List ErrorText) → is_empty (a ++ b) ≡ (is_empty a && is_empty b)
is_empty-append [] b = refl
is_empty-append (e ∷ a) b = refl

is_empty-error_if : (b : Bool) (e : ErrorText) → is_empty (error_if (not b) e) ≡ b
is_empty-error_if true e = refl
is_empty-error_if false e = refl

is_empty-type_errors :
    (is_url : Text → Bool) (t : Option InputType) (input : Text)
    → is_empty (type_errors is_url t input) ≡ fits is_url t input
unfolding type_errors
is_empty-type_errors is_url (some email) input = is_empty-error_if (validate_email input) _
is_empty-type_errors is_url (some phone) input = is_empty-error_if (validate_phone input) _
is_empty-type_errors is_url (some url) input = is_empty-error_if (is_url input) _
is_empty-type_errors is_url (some text) input = refl
is_empty-type_errors is_url none input = refl

is_empty-shorter :
    (n : Option ℕ) (input : Text)
    → is_empty (bound n at_least (too_short n input)) ≡ not (too_short n input)
is_empty-shorter none input = refl
is_empty-shorter (some n) input = ground arith

is_empty-longer :
    (n : Option ℕ) (input : Text)
    → is_empty (bound n at_most (too_long n input)) ≡ not (too_long n input)
is_empty-longer none input = refl
is_empty-longer (some n) input = ground arith

abbrev passes : (is_url : Text → Bool) → Text → Options → Bool
passes is_url input o =
    not (too_short o.min_length input)
    && not (too_long o.max_length input)
    && fits is_url o.type input
    && not (has_command input || has_mark input)
    && validate_xss input

is_empty-input_errors :
    (is_url : Text → Bool) (input : Text) (o : Options)
    → is_empty (input_errors is_url input o) ≡ passes is_url input o
unfolding input_errors
is_empty-input_errors is_url input o =
    simp
      (
        is_empty-append, is_empty-shorter, is_empty-longer, is_empty-type_errors, is_empty-error_if,
        validate_sql_injection_lem,
      )
      refl

-- Whatever the options are, the input is valid just when it passes every test that they ask for and has
-- no command, mark or tag, and then, and only then, there is no error.
pub validate_input-accepts :
    (is_url : Text → Bool) (input : Text) (o : Options)
    → let r = validate_input is_url input o in
      (r.valid ≡ accepts is_url input o) × (is_empty r.errors ≡ accepts is_url input o)
unfolding validate_input
validate_input-accepts is_url input o =
    let e = is_empty-input_errors is_url input o in
    elim (Bool-cases (o.required && is_blank input))
      as (λ x.
        let r = validate_input is_url input o in
        (r.valid ≡ accepts is_url input o) × (is_empty r.errors ≡ accepts is_url input o)) [
          | inl y ↦ rw y (refl, refl)
          | inr n ↦ rw n (e, e)
        ]
