-- ===== src/Validation/Patterns.antt =====
-- The tests of fe/src/lib/security/inputValidation.ts by regular expressions, on UTF-16 code units.
use rr_net.Prelude.{
  ℕ, ◌+◌, ◌==◌, leb, Bool, true, false, not, ◌&&◌, ◌||◌, List, [], ◌∷◌, Text, codes, any, all,
  filter, length, if◌then◌else◌,
}

-- `\s`.
unfoldable pub is_white : ℕ → Bool
is_white c =
    (leb 9 c && leb c 13)
    || c == 32
    || c == 160
    || c == 5760
    || (leb 8192 c && leb c 8202)
    || c == 8232
    || c == 8233
    || c == 8239
    || c == 8287
    || c == 12288
    || c == 65279

-- `[0-9]`.
abbrev pub is_digit : ℕ → Bool
is_digit c = leb 48 c && leb c 57

-- `\w`.
unfoldable pub is_word : ℕ → Bool
is_word c = is_digit c || (leb 65 c && leb c 90) || c == 95 || (leb 97 c && leb c 122)

-- `.` does not match the end of a line.
abbrev pub ends_line : ℕ → Bool
ends_line c = c == 10 || c == 13 || c == 8232 || c == 8233

-- The flag `i`, on the letters that the patterns have.
abbrev to_lower : ℕ → ℕ
to_lower c = if leb 65 c && leb c 90 then c + 32 else c

-- The text begins with the pattern, which is in lower case.
unfoldable pub begins : Text → Text → Bool
begins [] text = true
begins (p ∷ ps) [] = false
begins (p ∷ ps) (c ∷ text) = (to_lower c == p) && begins ps text

unfoldable pub rest_after : Text → Text → Text
rest_after [] text = text
rest_after (p ∷ ps) [] = []
rest_after (p ∷ ps) (c ∷ text) = rest_after ps text

-- A test holds at some place of the text; it is also told whether a word character comes before.
unfoldable pub somewhere : (Bool → Text → Bool) → Bool → Text → Bool
somewhere test before [] = test before []
somewhere test before (c ∷ text) =
    let rest = somewhere test (is_word c) text in test before (c ∷ text) || rest

abbrev pub starts_word : Text → Bool
starts_word [] = false
starts_word (c ∷ text) = is_word c

-- `\bword\b`, for a word in lower case.
unfoldable pub has_word : Bool → Text → (word : Text) → Bool
has_word before text word =
    not before && begins word text && not (starts_word (rest_after word text))

abbrev pub changes : List Text
changes = codes "select" ∷ codes "insert" ∷ codes "update" ∷ codes "delete" ∷ []

abbrev pub commands : List Text
commands =
    codes "select"
    ∷ codes "insert"
    ∷ codes "update"
    ∷ codes "delete"
    ∷ codes "drop"
    ∷ codes "create"
    ∷ codes "alter"
    ∷ codes "exec"
    ∷ codes "execute"
    ∷ []

abbrev pub joins : List Text
joins = codes "union" ∷ codes "or" ∷ codes "and" ∷ []

abbrev pub marks : List Text
marks = codes "--" ∷ codes ";" ∷ codes "/*" ∷ codes "*/" ∷ codes "xp_" ∷ codes "sp_" ∷ []

abbrev pub is_one_of : List Text → Bool → Text → Bool
is_one_of words before text = any (has_word before text) words

abbrev begins_one_of : List Text → Bool → Text → Bool
begins_one_of words before text = any (λ w. begins w text) words

-- `.*\b(SELECT|INSERT|UPDATE|DELETE)\b` from the start of the text.
unfoldable pub then_change : Bool → Text → Bool
then_change before [] = is_one_of changes before []
then_change before (c ∷ text) =
    let rest = then_change (is_word c) text in
    is_one_of changes before (c ∷ text) || (not (ends_line c) && rest)

-- `\b(UNION|OR|AND)\b.*\b(SELECT|INSERT|UPDATE|DELETE)\b` from the start of the text.
unfoldable pub joined_change : Bool → Text → Bool
joined_change before text =
    any (λ w. has_word before text w && then_change true (rest_after w text)) joins

unfoldable pub has_command : Text → Bool
has_command input = somewhere (is_one_of commands) false input

unfoldable pub has_mark : Text → Bool
has_mark input = somewhere (begins_one_of marks) false input

unfoldable pub has_joined_change : Text → Bool
has_joined_change input = somewhere joined_change false input

unfoldable pub validate_sql_injection : Text → Bool
validate_sql_injection input = not (has_command input || has_mark input || has_joined_change input)

unfoldable pub drop_while : (ℕ → Bool) → Text → Text
drop_while test [] = []
drop_while test (c ∷ text) = let rest = drop_while test text in if test c then rest else c ∷ text

abbrev first_is : ℕ → Text → Bool
first_is c [] = false
first_is c (x ∷ text) = x == c

-- `on\w+\s*=` from the start of the text.
unfoldable pub sets_handler : Bool → Text → Bool
sets_handler before text =
    begins (codes "on") text
    && starts_word (rest_after (codes "on") text)
    && first_is 61 (drop_while is_white (drop_while is_word (rest_after (codes "on") text)))

abbrev tags : List Text
tags =
    codes "<script" ∷ codes "javascript:" ∷ codes "<iframe" ∷ codes "<object" ∷ codes "<embed" ∷ []

unfoldable pub validate_xss : Text → Bool
validate_xss input =
    not (somewhere (begins_one_of tags) false input || somewhere sets_handler false input)

-- `[^\s@]`.
abbrev pub is_part : ℕ → Bool
is_part c = not (is_white c || c == 64)

abbrev pub filled : Text → Bool
filled [] = false
filled (c ∷ text) = true

-- `[^\s@]*\.[^\s@]+$` from the start of the text.
unfoldable pub is_domain_end : Text → Bool
is_domain_end [] = false
is_domain_end (c ∷ text) =
    let rest = is_domain_end text in
    (c == 46 && filled text && all is_part text) || (is_part c && rest)

-- `[^\s@]+\.[^\s@]+$`.
abbrev pub is_domain : Text → Bool
is_domain [] = false
is_domain (c ∷ text) = is_part c && is_domain_end text

-- `[^\s@]*@[^\s@]+\.[^\s@]+$` from the start of the text.
unfoldable pub is_address_end : Text → Bool
is_address_end [] = false
is_address_end (c ∷ text) =
    let rest = is_address_end text in if c == 64 then is_domain text else is_part c && rest

unfoldable pub validate_email : Text → Bool
validate_email [] = false
validate_email (c ∷ text) = is_part c && is_address_end text

-- `[0-9]{9,12}$`.
abbrev is_number : Text → Bool
is_number text = all is_digit text && leb 9 (length text) && leb (length text) 12

abbrev prefixes : List Text
prefixes = codes "+62" ∷ codes "62" ∷ codes "0" ∷ []

-- `input.replace(/\s/g, '')`.
abbrev pub without_white : Text → Text
without_white text = filter (λ c. not (is_white c)) text

unfoldable pub validate_phone : Text → Bool
validate_phone phone =
    let text = without_white phone in
    any (λ p. begins p text && is_number (rest_after p text)) prefixes

unfoldable pub validate_length : Text → (min max : ℕ) → Bool
validate_length input min max = leb min (length input) && leb (length input) max
