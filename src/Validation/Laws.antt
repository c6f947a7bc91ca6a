-- ===== src/Validation/Laws.antt =====
-- What the tests of fe/src/lib/security/inputValidation.ts let through.
use rr_net.Prelude.{
  ℕ, suc, ◌+◌, ◌≤◌, ◌==◌, ◌≡◌, refl, Bool, true, false, not, ◌&&◌, ◌||◌, List, [], ◌∷◌, Text, codes,
  length, all, any, arith, if◌then◌else◌,
}
use rr_net.Validation.Patterns.{
  is_white, is_word, begins, rest_after, somewhere, has_word, changes, commands, joins, is_one_of,
  then_change, joined_change, has_command, has_mark, has_joined_change, validate_sql_injection,
  is_part, filled, is_domain_end, is_domain, is_address_end, validate_email, validate_phone,
  without_white,
}

any-changes : (b : Bool) (t : Text) → is_one_of changes b t ≡ true → is_one_of commands b t ≡ true
any-changes b t h = ground arith

-- A word that is found where a word character comes before is found in any case.
has_word-before :
    (words : List Text) (b : Bool) (t : Text)
    → is_one_of words true t ≡ true
    → is_one_of words b t ≡ true
unfolding has_word
has_word-before [] b t h = h
has_word-before (w ∷ words) b t h = ground (arith, has_word-before words b t)

somewhere-before :
    (b : Bool) (t : Text)
    → somewhere (is_one_of commands) true t ≡ true
    → somewhere (is_one_of commands) b t ≡ true
unfolding somewhere
somewhere-before b [] h = has_word-before commands b [] h
somewhere-before b (c ∷ t) h = ground (arith, has_word-before commands b (c ∷ t))

somewhere-rest_after :
    (w : Text) (b : Bool) (t : Text)
    → somewhere (is_one_of commands) true (rest_after w t) ≡ true
    → somewhere (is_one_of commands) b t ≡ true
unfolding rest_after somewhere
somewhere-rest_after [] b t h = somewhere-before b t h
somewhere-rest_after (p ∷ w) b [] h = has_word-before commands b [] h
somewhere-rest_after (p ∷ w) b (c ∷ t) h = ground (arith, somewhere-rest_after w (is_word c) t h)

then_change-command :
    (b : Bool) (t : Text) → then_change b t ≡ true → somewhere (is_one_of commands) b t ≡ true
unfolding then_change somewhere
then_change-command b [] h = any-changes b [] h
then_change-command b (c ∷ t) h =
    ground (arith, any-changes b (c ∷ t), then_change-command (is_word c) t)

joined-command :
    (words : List Text) (b : Bool) (t : Text)
    → any (λ w. has_word b t w && then_change true (rest_after w t)) words ≡ true
    → somewhere (is_one_of commands) b t ≡ true
joined-command [] b t h = ground arith
joined-command (w ∷ words) b t h = ground (
  arith,
  joined-command words b t,
  somewhere-rest_after w b t,
  then_change-command true (rest_after w t),
)

somewhere-command :
    (b : Bool) (t : Text)
    → somewhere joined_change b t ≡ true
    → somewhere (is_one_of commands) b t ≡ true
unfolding somewhere joined_change
somewhere-command b [] h = joined-command joins b [] h
somewhere-command b (c ∷ t) h =
    ground (arith, joined-command joins b (c ∷ t), somewhere-command (is_word c) t)

-- The third pattern changes nothing: a text is refused just when it has one of the nine commands as a
-- word, or one of the six marks.
pub validate_sql_injection_lem :
    (input : Text) → validate_sql_injection input ≡ not (has_command input || has_mark input)
unfolding validate_sql_injection has_command has_joined_change
validate_sql_injection_lem input = ground (arith, somewhere-command false input)

abbrev pub count : ℕ → Text → ℕ
count x [] = 0
count x (c ∷ text) = if c == x then suc (count x text) else count x text

abbrev pub no_white : Text → Bool
no_white text = all (λ c. not (is_white c)) text

parts : (t : Text) → all is_part t ≡ true → (count 64 t ≡ 0) × (no_white t ≡ true)
parts [] h = (refl, refl)
parts (c ∷ t) h = ground (arith, parts t)

dot : (c : ℕ) → (c == 46) ≡ true → ((c == 64) ≡ false) × (is_white c ≡ false)
unfolding is_white
dot c h = ground arith

at_sign : (c : ℕ) → (c == 64) ≡ true → is_white c ≡ false
unfolding is_white
at_sign c h = ground arith

length-filled : (t : Text) → filled t ≡ true → 1 ≤ length t
length-filled [] h = ground arith
length-filled (c ∷ t) h = omega arith

domain_end :
    (t : Text) → is_domain_end t ≡ true → (count 64 t ≡ 0) × (no_white t ≡ true) × (2 ≤ length t)
unfolding is_domain_end
domain_end [] h = ground arith
domain_end (c ∷ t) h = ground (arith, parts t, dot c, length-filled t, domain_end t)

domain : (t : Text) → is_domain t ≡ true → (count 64 t ≡ 0) × (no_white t ≡ true) × (3 ≤ length t)
domain [] h = ground arith
domain (c ∷ t) h = ground (arith, domain_end t)

address_end :
    (t : Text) → is_address_end t ≡ true → (count 64 t ≡ 1) × (no_white t ≡ true) × (4 ≤ length t)
unfolding is_address_end
address_end [] h = ground arith
address_end (c ∷ t) h = ground (arith, at_sign c, domain t, address_end t)

-- An accepted address has one `@`, no white space, and at least five code units.
pub validate_email_lem :
    (t : Text) → validate_email t ≡ true → (count 64 t ≡ 1) × (no_white t ≡ true) × (5 ≤ length t)
unfolding validate_email
validate_email_lem [] h = ground arith
validate_email_lem (c ∷ t) h = ground (arith, address_end t)

length-rest_after : (w t : Text) → begins w t ≡ true → length t ≡ length w + length (rest_after w t)
unfolding begins rest_after
length-rest_after [] t h = omega arith
length-rest_after (p ∷ w) [] h = ground arith
length-rest_after (p ∷ w) (c ∷ t) h = ground (arith, length-rest_after w t)

-- An accepted phone number has ten to fifteen code units besides its white space.
pub validate_phone_lem :
    (phone : Text)
    → validate_phone phone ≡ true
    → (10 ≤ length (without_white phone)) × (length (without_white phone) ≤ 15)
unfolding validate_phone
validate_phone_lem phone h =
    let t = without_white phone in
    let plus = length-rest_after (codes "+62") t in
    let country = length-rest_after (codes "62") t in
    let zero_first = length-rest_after (codes "0") t in ground (arith, h, plus, country, zero_first)
