-- ===== src/Validation.antt =====
-- fe/src/lib/security/inputValidation.ts: `sanitizeInput`, one global replacement after the other.
pub mod Escape
pub mod Patterns
pub mod Input
pub mod Laws
use rr_net.Prelude.{
  ℕ, Bool, true, false, List, [], ◌∷◌, ◌++◌, ◌==◌, ◌||◌, if◌then◌else◌, Text, codes, any,
}

-- `text.replace(/c/g, by)`.
unfoldable pub replace_all : ℕ → Text → Text → Text
replace_all c by [] = []
replace_all c by (x ∷ xs) = (if x == c then by else x ∷ []) ++ replace_all c by xs

-- The code units of `<`, `>`, `"`, `'` and `/`.
abbrev pub less : ℕ
less = 60

abbrev pub greater : ℕ
greater = 62

abbrev pub double_quote : ℕ
double_quote = 34

abbrev pub single_quote : ℕ
single_quote = 39

abbrev pub slash : ℕ
slash = 47

unfoldable pub sanitize_input : Text → Text
sanitize_input input = replace_all slash (codes "&#x2F;") (
    replace_all single_quote (codes "&#x27;") (
      replace_all double_quote (codes "&quot;")
        (replace_all greater (codes "&gt;") (replace_all less (codes "&lt;") input))))
