-- ===== src/Validation/Escape.antt =====
-- The five replacements as one pass over the input.
use rr_net.Prelude.{
  ℕ, ◌≡◌, refl, ap, Bool, true, not, ◌&&◌, [], ◌∷◌, ◌++◌, ◌==◌, if◌then◌else◌, Text, codes, all,
  all-append, arith, Bool-cases, inl, inr,
}
use rr_net.Validation.{
  replace_all, sanitize_input, less, greater, double_quote, single_quote, slash,
}

unfoldable pub escape_unit : ℕ → Text
escape_unit x =
    if x == less
    then codes "&lt;"
    else (if x == greater
        then codes "&gt;"
        else (if x == double_quote
            then codes "&quot;"
            else (if x == single_quote
                then codes "&#x27;"
                else (if x == slash then codes "&#x2F;" else x ∷ []))))

unfoldable pub escape : Text → Text
escape [] = []
escape (x ∷ xs) = escape_unit x ++ escape xs

abbrev pub is_harmless : ℕ → Bool
is_harmless x =
    not (x == less)
    && not (x == greater)
    && not (x == double_quote)
    && not (x == single_quote)
    && not (x == slash)

assoc : (a b c : Text) → (a ++ b) ++ c ≡ a ++ (b ++ c)
assoc [] b c = refl
assoc (x ∷ a) b c = ap (λ l. x ∷ l) (assoc a b c)

replace_all-append :
    (c : ℕ) (by a b : Text) → replace_all c by (a ++ b) ≡ replace_all c by a ++ replace_all c by b
unfolding replace_all
replace_all-append c by [] b = refl
replace_all-append c by (x ∷ a) b =
    rw (replace_all-append c by a b)
      (rw (assoc (if x == c then by else x ∷ []) (replace_all c by a) (replace_all c by b)) refl)

sanitize_input-append :
    (a b : Text) → sanitize_input (a ++ b) ≡ sanitize_input a ++ sanitize_input b
unfolding sanitize_input
sanitize_input-append a b =
    rw
      (
        replace_all-append, replace_all-append, replace_all-append, replace_all-append,
        replace_all-append,
      )
      refl

sanitize_unit : (x : ℕ) → sanitize_input (x ∷ []) ≡ escape_unit x
unfolding sanitize_input replace_all escape_unit
sanitize_unit x = elim (Bool-cases (x == less)) [
  | inl a ↦ rw (a, sanitize_input, escape_unit, replace_all) refl
  | inr a ↦ elim (Bool-cases (x == greater)) [
    | inl b ↦ rw (a, b) refl
    | inr b ↦ elim (Bool-cases (x == double_quote)) [
      | inl c ↦ rw (a, b, c) refl
      | inr c ↦ elim (Bool-cases (x == single_quote)) [
        | inl d ↦ rw (a, b, c, d) refl
        | inr d ↦ elim (Bool-cases (x == slash)) [
          | inl e ↦ rw (a, b, c, d, e) refl
          | inr e ↦ rw (a, b, c, d, e) refl
        ]
      ]
    ]
  ]
]

escape_unit-harmless : (x : ℕ) → all is_harmless (escape_unit x) ≡ true
unfolding escape_unit
escape_unit-harmless x = ground arith

escape-harmless : (t : Text) → all is_harmless (escape t) ≡ true
unfolding escape
escape-harmless [] = refl
escape-harmless (x ∷ xs) = ground (
  arith,
  all-append is_harmless (escape_unit x) (escape xs),
  escape_unit-harmless x,
  escape-harmless xs,
)

sanitize_input-escape : (t : Text) → sanitize_input t ≡ escape t
unfolding escape
sanitize_input-escape [] = unfold sanitize_input replace_all in refl
sanitize_input-escape (x ∷ xs) =
    rw (sanitize_input-append (x ∷ []) xs)
      (rw (sanitize_unit x) (rw (sanitize_input-escape xs) refl))

-- The five replacements, each over the result of the one before, are one pass that escapes each
-- character of the input by itself; nothing is escaped twice, and no angle bracket, quote or slash
-- is left.
pub sanitize_input_lem :
    (t : Text) → (sanitize_input t ≡ escape t) × (all is_harmless (sanitize_input t) ≡ true)
sanitize_input_lem t = (sanitize_input-escape t, rw (sanitize_input-escape t) (escape-harmless t))
