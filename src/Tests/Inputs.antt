-- ===== src/Tests/Inputs.antt =====
-- Inputs for fe/src/lib/security/inputValidation.ts.
use rr_net.Prelude.{◌≡◌, ◌≤◌, refl, Bool, true, false, [], ◌∷◌, none, some, Text, codes, length}
use rr_net.Validation.Patterns.{
  validate_email, validate_phone, validate_sql_injection, validate_xss, is_address_end,
  is_domain_end, is_white, somewhere, has_word, begins, rest_after, is_word, sets_handler,
  drop_while, has_command, has_mark, has_joined_change, joined_change, then_change,
}
use rr_net.Validation.Laws.{validate_email_lem, count, no_white}
use rr_net.Validation.Input.{Options, email, is_required, is_empty, validate_input}
use rr_net.Validation.Input.Valid.{validate_input-accepts, accepts}

abbrev address : Text
address = codes "ana@isp.id"

validate_email_lem_example :
    (count 64 address ≡ 1) × (no_white address ≡ true) × (5 ≤ length address)
validate_email_lem_example =
    validate_email_lem address (unfold validate_email is_address_end is_domain_end is_white in refl)

refused : validate_email (codes "ana@isp@id") ≡ false
unfolding validate_email is_address_end is_domain_end is_white
refused = refl

-- A word inside of a longer word is none.
selection : validate_sql_injection (codes "Selection OR updates") ≡ true
unfolding validate_sql_injection has_command has_mark has_joined_change somewhere joined_change
    then_change has_word begins rest_after is_word
selection = refl

selects : validate_sql_injection (codes "x OR select 1") ≡ false
unfolding validate_sql_injection has_command has_mark has_joined_change somewhere joined_change
    then_change has_word begins rest_after is_word
selects = refl

handler : validate_xss (codes "<b ONclick =f>") ≡ false
unfolding validate_xss somewhere sets_handler begins rest_after drop_while is_word is_white
handler = refl

phone_number : validate_phone (codes "+62 812-3456") ≡ false
unfolding validate_phone begins rest_after is_white
phone_number = refl

mobile : validate_phone (codes "0812 3456 7890") ≡ true
unfolding validate_phone begins rest_after is_white
mobile = refl

abbrev any_url : Text → Bool
any_url t = true

abbrev options : Options
options = record { required = true; min_length = some 3; max_length = none; type = some email }

validate_input-accepts_example :
    let r = validate_input any_url (codes "a@b.id; drop") options in
    (r.valid ≡ accepts any_url (codes "a@b.id; drop") options)
    × (is_empty r.errors ≡ accepts any_url (codes "a@b.id; drop") options)
validate_input-accepts_example = validate_input-accepts any_url (codes "a@b.id; drop") options

blank : (validate_input any_url (codes " ") options).errors ≡ is_required ∷ []
unfolding validate_input is_white
blank = refl
