-- ===== src/Keyed/Distinct.antt =====
-- The ids of a collection's list.
use rr_net.Prelude.{
  ◌≡◌, refl, sym, fun_ext, subst, Bool, not, map, filter, All, if◌then◌else◌, List, [], ◌∷◌, ◌++◌,
  none, String, str_eq, arith, eq_iff, Bool-cases, inl, inr,
}
use rr_net.Keyed.{
  Keyed, id_of, Shelf, Change, lists, opens, closes, appends, prepends, replaces, removes, edits,
  edits_open, change, changes, found, contents, Fits, FitsAll,
}
use rr_net.Keyed.Laws.{found-append, contents-change}

module _ {A : Type 0} ⦃k : Keyed A⦄ where
  -- No id stands twice.
  abbrev pub IsDistinct : List A → Type 0
  IsDistinct [] = Unit
  IsDistinct (x ∷ l) = (found l (id_of x) ≡ none) × IsDistinct l

  IsDistinct-append :
      (a : A) (l : List A) → IsDistinct l → found l (id_of a) ≡ none → IsDistinct (l ++ a ∷ [])
  IsDistinct-append a [] d h = (refl, tt)
  IsDistinct-append a (x ∷ l) (n, d) h = (
    ground
        (arith, found-append a l (id_of x), eq_iff (id_of x) (id_of a), eq_iff (id_of a) (id_of x)),
    IsDistinct-append a l d (ground (arith, eq_iff (id_of x) (id_of a))),
  )

  -- An update that keeps every id.
  found-map :
      (g : A → A) (l : List A) (j : String)
      → ((x : A) → id_of (g x) ≡ id_of x)
      → found l j ≡ none
      → found (map g l) j ≡ none
  found-map g [] j h n = refl
  found-map g (x ∷ l) j h n = rw (h x) (ground (arith, found-map g l j h))

  IsDistinct-map :
      (g : A → A) (l : List A)
      → ((x : A) → id_of (g x) ≡ id_of x)
      → IsDistinct l
      → IsDistinct (map g l)
  IsDistinct-map g [] h d = tt
  IsDistinct-map g (x ∷ l) h (n, d) =
      (rw (h x) (found-map g l (id_of x) h n), IsDistinct-map g l h d)

  replaced_id :
      (id : String) (a x : A)
      → id_of a ≡ id
      → id_of (if str_eq (id_of x) id then a else x) ≡ id_of x
  replaced_id id a x h = ground (arith, eq_iff (id_of x) id)

  edited_id :
      (id : String) (f : A → A) (x : A)
      → id_of (f x) ≡ id_of x
      → id_of (if str_eq (id_of x) id then f x else x) ≡ id_of x
  edited_id id f x h = ground arith

  found-filter :
      (p : A → Bool) (l : List A) (j : String) → found l j ≡ none → found (filter p l) j ≡ none
  found-filter p [] j n = refl
  found-filter p (x ∷ l) j n = ground (arith, found-filter p l j)

  IsDistinct-filter : (p : A → Bool) (l : List A) → IsDistinct l → IsDistinct (filter p l)
  IsDistinct-filter p [] d = tt
  IsDistinct-filter p (x ∷ l) (n, d) = elim (Bool-cases (p x)) [
    | inl y ↦ rw y (found-filter p l (id_of x) n, IsDistinct-filter p l d)
    | inr y ↦ rw y (IsDistinct-filter p l d)
  ]

  -- The backend's lists have distinct ids.
  abbrev pub Lists : Change A → Type 0
  Lists (lists l) = IsDistinct l
  Lists _ = Unit

  change-IsDistinct :
      (s : Shelf A) (c : Change A)
      → Fits (contents s) c
      → Lists c
      → IsDistinct s.items
      → IsDistinct (change s c).items
  change-IsDistinct s (lists l) h g d = g
  change-IsDistinct s (opens a) h g d = d
  change-IsDistinct s closes h g d = d
  change-IsDistinct s (appends a) h g d = IsDistinct-append a s.items d h
  change-IsDistinct s (prepends a) h g d = (h, d)
  change-IsDistinct s (replaces id a) h g d =
      IsDistinct-map (λ x. if str_eq (id_of x) id then a else x) s.items (λ x. replaced_id id a x h)
        d
  change-IsDistinct s (removes id) h g d =
      IsDistinct-filter (λ x. not (str_eq (id_of x) id)) s.items d
  change-IsDistinct s (edits id f) h g d =
      IsDistinct-map (λ x. if str_eq (id_of x) id then f x else x) s.items
        (λ x. edited_id id f x (h x)) d
  change-IsDistinct s (edits_open id f) h g d =
      IsDistinct-map (λ x. if str_eq (id_of x) id then f x else x) s.items
        (λ x. edited_id id f x (h x)) d

  -- Changes that fit the map, with lists of distinct ids, keep the ids distinct.
  pub changes-IsDistinct :
      (s : Shelf A) (cs : List (Change A))
      → FitsAll (contents s) cs
      → All Lists cs
      → IsDistinct s.items
      → IsDistinct (changes s cs).items
  changes-IsDistinct s [] h g d = d
  changes-IsDistinct s (c ∷ cs) (h, hs) (g, gs) d =
      changes-IsDistinct (change s c) cs
        (subst (λ m. FitsAll m cs) (sym (fun_ext (λ j. contents-change s c j h))) hs) gs
        (change-IsDistinct s c h g d)
