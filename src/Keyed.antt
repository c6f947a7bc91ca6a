-- ===== src/Keyed.antt =====
-- A collection that a store keeps: a list of items with ids and the one that is open, the two fields
-- `xs: X[]` and `x: X | null` of the stores under fe/src/stores/.
pub mod Laws
pub mod Distinct
pub mod Agreement
use rr_net.Prelude.{
  ℕ, Bool, true, false, not, ◌≡◌, List, [], ◌∷◌, ◌++◌, map, filter, find?, Option, none, some,
  String, str_eq, if◌then◌else◌,
}

pub record Keyed (A : Type 0) : Type 0 where
  pub id_of : A → String

abbrev pub id_of : {A : Type 0} ⦃k : Keyed A⦄ → A → String
id_of ⦃k⦄ = k.id_of

pub record Shelf (A : Type 0) : Type 0 where
  pub items : List A
  pub item : Option A

abbrev pub empty_shelf : {A : Type 0} → Shelf A
empty_shelf = record { items = []; item = none }

-- What an answer of the backend does to the collection.
pub data Change (A : Type 0) : Type 0 where
  lists : List A → Change A
  opens : A → Change A
  closes : Change A
  appends prepends : A → Change A
  replaces : String → A → Change A
  removes : String → Change A
  edits : String → (A → A) → Change A
  edits_open : String → (A → A) → Change A

-- The specification: a finite map by id, in which the order and the open item are forgotten.
abbrev pub Contents : Type 0 → Type 0
Contents A = String → Option A

abbrev pub put_all : {A : Type 0} → List A → Shelf A → Shelf A
put_all l s = record s { items = l }

-- The open item, as one that is fetched by its id.
abbrev pub open_item : {A : Type 0} → A → Shelf A → Shelf A
open_item a s = record s { item = some a }

abbrev pub close_item : {A : Type 0} → Shelf A → Shelf A
close_item s = record s { item = none }

abbrev pub append : {A : Type 0} → A → Shelf A → Shelf A
append a s = record s { items = s.items ++ a ∷ [] }

abbrev pub prepend : {A : Type 0} → A → Shelf A → Shelf A
prepend a s = record s { items = a ∷ s.items }

module _ {A : Type 0} ⦃k : Keyed A⦄ where
  -- `x?.id === id`.
  abbrev pub is_open : String → Option A → Bool
  is_open id none = false
  is_open id (some a) = str_eq (id_of a) id

  abbrev pub replace_in : String → A → List A → List A
  replace_in id a = map (λ x. if str_eq (id_of x) id then a else x)

  abbrev pub replace : String → A → Shelf A → Shelf A
  replace id a s = record {
    items = replace_in id a s.items;
    item = if is_open id s.item then some a else s.item;
  }

  abbrev pub remove_from : String → List A → List A
  remove_from id = filter (λ x. not (str_eq (id_of x) id))

  abbrev pub remove : String → Shelf A → Shelf A
  remove id s = record {
    items = remove_from id s.items;
    item = if is_open id s.item then none else s.item;
  }

  abbrev pub edit_in : String → (A → A) → List A → List A
  edit_in id f = map (λ x. if str_eq (id_of x) id then f x else x)

  abbrev pub open_edited : String → (A → A) → Option A → Option A
  open_edited id f none = none
  open_edited id f (some a) = if str_eq (id_of a) id then some (f a) else some a

  abbrev pub edit : String → (A → A) → Shelf A → Shelf A
  edit id f s = record s { items = edit_in id f s.items }

  abbrev pub edit_with_open : String → (A → A) → Shelf A → Shelf A
  edit_with_open id f s = record { items = edit_in id f s.items; item = open_edited id f s.item }

  abbrev pub change : Shelf A → Change A → Shelf A
  change s (lists l) = put_all l s
  change s (opens a) = open_item a s
  change s closes = close_item s
  change s (appends a) = append a s
  change s (prepends a) = prepend a s
  change s (replaces id a) = replace id a s
  change s (removes id) = remove id s
  change s (edits id f) = edit id f s
  change s (edits_open id f) = edit_with_open id f s

  abbrev pub changes : Shelf A → List (Change A) → Shelf A
  changes s [] = s
  changes s (c ∷ cs) = changes (change s c) cs

  abbrev pub found : List A → Contents A
  found l j = find? (λ x. str_eq (id_of x) j) l

  abbrev pub contents : Shelf A → Contents A
  contents s = found s.items

  abbrev pub put : A → Contents A → Contents A
  put a m j = if str_eq (id_of a) j then some a else m j

  abbrev pub over : (A → A) → Option A → Option A
  over f none = none
  over f (some x) = some (f x)

  abbrev pub at_key : String → (A → A) → Contents A → Contents A
  at_key id f m j = if str_eq id j then over f (m j) else m j

  abbrev pub erase : String → Contents A → Contents A
  erase id m j = if str_eq id j then none else m j

  abbrev pub effect : Contents A → Change A → Contents A
  effect m (lists l) = found l
  effect m (opens a) = m
  effect m closes = m
  effect m (appends a) = put a m
  effect m (prepends a) = put a m
  effect m (replaces id a) = at_key id (λ x. a) m
  effect m (removes id) = erase id m
  effect m (edits id f) = at_key id f m
  effect m (edits_open id f) = at_key id f m

  abbrev pub effects : Contents A → List (Change A) → Contents A
  effects m [] = m
  effects m (c ∷ cs) = effects (effect m c) cs

  -- What the answers are relied on for: a created item has an id that the map lacks when its answer comes,
  -- and an update keeps the id.
  abbrev pub Fits : Contents A → Change A → Type 0
  Fits m (appends a) = m (id_of a) ≡ none
  Fits m (prepends a) = m (id_of a) ≡ none
  Fits m (replaces id a) = id_of a ≡ id
  Fits m (edits id f) = (x : A) → id_of (f x) ≡ id_of x
  Fits m (edits_open id f) = (x : A) → id_of (f x) ≡ id_of x
  Fits m _ = Unit

  abbrev pub FitsAll : Contents A → List (Change A) → Type 0
  FitsAll m [] = Unit
  FitsAll m (c ∷ cs) = Fits m c × FitsAll (effect m c) cs
