-- ===== src/Tests/Sorting.antt =====
-- A sort by insertion, which does what fe/src/components/common/DataTable.tsx relies on.
use rr_net.Prelude.{ℕ, ◌≡◌, refl, Bool, true, not, List, [], ◌∷◌, ltb, arith, if◌then◌else◌}
use rr_net.Widgets.Table.{Order, is_after, Source, adjacent, IsConsistent, Sorts, IsWeakOrder}

abbrev insert : (ℕ → ℕ → Order) → ℕ → List ℕ → List ℕ
insert cmp a [] = a ∷ []
insert cmp a (b ∷ l) = if is_after (cmp a b) then b ∷ insert cmp a l else a ∷ b ∷ l

abbrev pub sort : (ℕ → ℕ → Order) → List ℕ → List ℕ
sort cmp [] = []
sort cmp (a ∷ l) = insert cmp a (sort cmp l)

abbrev pub rises : (ℕ → ℕ → Order) → ℕ → ℕ → Bool
rises cmp a b = not (is_after (cmp a b))

abbrev pub numbers : Source ℕ ℕ
numbers = record {
  columns = "n" ∷ [];
  cell = λ c n. n;
  text_of = λ c n. "";
  less = ltb;
  has_text = λ s t. true;
  lower = λ s. s;
  sort = sort;
}

after-rises :
    (cmp : ℕ → ℕ → Order) (x y : ℕ)
    → IsConsistent numbers cmp
    → is_after (cmp x y) ≡ true
    → rises cmp y x ≡ true
after-rises cmp x y c h = ground (arith, c.2 x y, h)

insert-adjacent :
    (cmp : ℕ → ℕ → Order) (a : ℕ) (l : List ℕ)
    → IsConsistent numbers cmp
    → adjacent numbers (rises cmp) l ≡ true
    → adjacent numbers (rises cmp) (insert cmp a l) ≡ true
insert-adjacent cmp a [] c o = refl
insert-adjacent cmp a (b ∷ []) c o = ground (arith, after-rises cmp a b c)
insert-adjacent cmp a (b ∷ d ∷ l) c o =
    ground (arith, after-rises cmp a b c, after-rises cmp a d c, insert-adjacent cmp a (d ∷ l) c)

pub sort-Sorts : Sorts numbers
sort-Sorts cmp [] c = refl
sort-Sorts cmp (a ∷ l) c = insert-adjacent cmp a (sort cmp l) c (sort-Sorts cmp l c)

pub ltb-IsWeakOrder : IsWeakOrder numbers
ltb-IsWeakOrder = (λ x y h. ground arith, λ x y z h g. ground arith, λ x y z h. ground arith)
