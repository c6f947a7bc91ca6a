-- ===== src/Widgets/Table.antt =====
-- fe/src/components/common/DataTable.tsx, for rows, values and columns of any types. `text_of` is the
-- lower-cased text of a cell, or the empty text, `has_text` is `includes`, `lower` is `toLowerCase`
-- `less` is JavaScript's `<` on two cells, and `sort` the array's.
use rr_net.Prelude.{
  ◌≡◌, refl, Bool, true, false, not, ◌&&◌, ◌||◌, List, [], ◌∷◌, filter, any, Option, none, some,
  String, str_eq, eq_refl, truthy, arith, if◌then◌else◌,
}

pub data Direction : Type 0 where
  asc desc : Direction

-- The state of the component.
pub record TableState : Type 0 where
  pub search_query : String
  pub sort_column : Option String
  pub sort_direction : Direction

abbrev pub opened : TableState
opened = record { search_query = ""; sort_column = none; sort_direction = asc }

abbrev flip : Direction → Direction
flip asc = desc
flip desc = asc

abbrev is_column : Option String → String → Bool
is_column none key = false
is_column (some c) key = str_eq c key

unfoldable pub handle_sort : TableState → (column_key : String) → TableState
handle_sort s key =
    if is_column s.sort_column key
    then record s { sort_direction = flip s.sort_direction }
    else record s { sort_column = some key; sort_direction = asc }

-- What the comparison of two rows answers: -1, 0 or 1.
pub data Order : Type 0 where
  before same after : Order

abbrev pub is_after : Order → Bool
is_after after = true
is_after _ = false

-- What the component is given of a row type `R`, with cells of type `V`.
pub record Source (R V : Type 0) : Type 0 where
  pub columns : List String
  pub cell : String → R → V
  pub text_of : String → R → String
  pub less : V → V → Bool
  pub has_text : String → String → Bool
  pub lower : String → String
  pub sort : (R → R → Order) → List R → List R

module _ {R V : Type 0} (source : Source R V) where
  unfoldable pub filtered_data : (searchable : Bool) (query : String) → List R → List R
  filtered_data searchable query rows =
      if searchable && truthy query
      then filter
          (λ r. any (λ c. source.has_text (source.text_of c r) (source.lower query)) source.columns)
          rows
      else rows

  abbrev pub compare_rows : String → Direction → R → R → Order
  compare_rows key asc a b =
      if source.less (source.cell key a) (source.cell key b)
      then before
      else if source.less (source.cell key b) (source.cell key a)
      then after
      else same
  compare_rows key desc a b =
      if source.less (source.cell key a) (source.cell key b)
      then after
      else if source.less (source.cell key b) (source.cell key a)
      then before
      else same

  abbrev known : List String → String → Bool
  known columns key = any (str_eq key) columns

  unfoldable pub sorted_data : Option String → Direction → List R → List R
  sorted_data none direction rows = rows
  sorted_data (some key) direction rows =
      if known source.columns key then source.sort (compare_rows key direction) rows else rows

  -- What the table shows.
  unfoldable pub visible_rows : (searchable : Bool) → TableState → List R → List R
  unfolding filtered_data sorted_data
  visible_rows searchable s rows =
      sorted_data s.sort_column s.sort_direction (filtered_data searchable s.search_query rows)

  -- The test holds of every row and the row after it.
  abbrev pub adjacent : (R → R → Bool) → List R → Bool
  adjacent test [] = true
  adjacent test (a ∷ []) = true
  adjacent test (a ∷ b ∷ l) = test a b && adjacent test (b ∷ l)

  -- What the language asks of a comparison, for the result of `sort` to be defined.
  abbrev pub IsConsistent : (R → R → Order) → Type 0
  IsConsistent compare =
      ((a : R) → compare a a ≡ same)
      × ((a b : R) → compare a b ≡ before → compare b a ≡ after)
      × ((a b : R) → compare a b ≡ after → compare b a ≡ before)
      × ((a b c : R) → compare a b ≡ before → compare b c ≡ before → compare a c ≡ before)
      × ((a b c : R) → compare a b ≡ same → compare b c ≡ same → compare a c ≡ same)

  -- `sort` of a consistent comparison leaves no row before one that it comes after.
  abbrev pub Sorts : Type 0
  Sorts =
      (compare : R → R → Order) (l : List R)
      → IsConsistent compare
      → adjacent (λ a b. not (is_after (compare a b))) (source.sort compare l) ≡ true

  -- `<` orders the cells, up to cells that are equal for it.
  abbrev pub IsWeakOrder : Type 0
  IsWeakOrder =
      ((x y : V) → source.less x y ≡ true → source.less y x ≡ false)
      × ((x y z : V) → source.less x y ≡ true → source.less y z ≡ true → source.less x z ≡ true)
      × ((x y z : V) → source.less x z ≡ true → (source.less x y || source.less y z) ≡ true)

  compare_rows-IsConsistent :
      (key : String) (d : Direction) → IsWeakOrder → IsConsistent (compare_rows key d)
  compare_rows-IsConsistent key asc (asym, trans, weak) =
      let v : R → V = source.cell key in
      (
        λ a. ground (arith, asym (v a) (v a)),
        λ a b h. ground (arith, asym (v a) (v b), h),
        λ a b h. ground (arith, asym (v b) (v a), h),
        λ a b c h g. ground (arith, trans (v a) (v b) (v c), h, g),
        λ a b c h g. ground (arith, weak (v a) (v b) (v c), weak (v c) (v b) (v a), h, g),
      )
  compare_rows-IsConsistent key desc (asym, trans, weak) =
      let v : R → V = source.cell key in
      (
        λ a. ground (arith, asym (v a) (v a)),
        λ a b h. ground (arith, asym (v b) (v a), h),
        λ a b h. ground (arith, asym (v a) (v b), h),
        λ a b c h g. ground (
          arith,
          trans (v c) (v b) (v a),
          asym (v c) (v a),
          asym (v b) (v a),
          asym (v c) (v b),
          h,
          g,
        ),
        λ a b c h g. ground (arith, weak (v a) (v b) (v c), weak (v c) (v b) (v a), h, g),
      )

  -- Upwards, no cell is less than the one above it, and downwards none is greater.
  abbrev pub is_sorted : String → Direction → List R → Bool
  is_sorted key asc l =
      adjacent (λ a b. not (source.less (source.cell key b) (source.cell key a))) l
  is_sorted key desc l =
      adjacent (λ a b. not (source.less (source.cell key a) (source.cell key b))) l

  adjacent-implies :
      (f g : R → R → Bool) (l : List R)
      → ((a b : R) → f a b ≡ true → g a b ≡ true)
      → adjacent f l ≡ true
      → adjacent g l ≡ true
  adjacent-implies f g [] h o = refl
  adjacent-implies f g (a ∷ []) h o = refl
  adjacent-implies f g (a ∷ b ∷ l) h o = ground (arith, h a b, adjacent-implies f g (b ∷ l) h)

  sorted_data-is_sorted :
      (key : String) (d : Direction) (rows : List R)
      → IsWeakOrder
      → Sorts
      → any (str_eq key) source.columns ≡ true
      → is_sorted key d (sorted_data (some key) d rows) ≡ true
  unfolding sorted_data
  sorted_data-is_sorted key asc rows o sorts k = rw k (
      adjacent-implies _ _ (source.sort (compare_rows key asc) rows)
        (λ a b h. ground (arith, o.0 (source.cell key a) (source.cell key b), h))
        (sorts (compare_rows key asc) rows (compare_rows-IsConsistent key asc o)))
  sorted_data-is_sorted key desc rows o sorts k = rw k (
      adjacent-implies _ _ (source.sort (compare_rows key desc) rows) (λ a b h. ground (arith, h))
        (sorts (compare_rows key desc) rows (compare_rows-IsConsistent key desc o)))

  -- A click on the header of another column shows the rows with its cells upwards, none less than the one
  -- above it, and a second click downwards, none greater: for cells that `<` orders and a `sort` that
  -- sorts by every consistent comparison.
  pub handle_sort-is_sorted :
      (searchable : Bool) (s : TableState) (key : String) (rows : List R)
      → IsWeakOrder
      → Sorts
      → any (str_eq key) source.columns ≡ true
      → is_column s.sort_column key ≡ false
      → (is_sorted key asc (visible_rows searchable (handle_sort s key) rows) ≡ true)
        × (is_sorted key desc (visible_rows searchable (handle_sort (handle_sort s key) key) rows)
            ≡ true)
  unfolding visible_rows sorted_data handle_sort
  handle_sort-is_sorted searchable s key rows o sorts k n =
      let shown = filtered_data searchable s.search_query rows in
      rw (n, eq_refl key)
        (
          sorted_data-is_sorted key asc shown o sorts k,
          sorted_data-is_sorted key desc shown o sorts k,
        )
