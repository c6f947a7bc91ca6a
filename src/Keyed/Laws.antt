-- ===== src/Keyed/Laws.antt =====
-- Each change of a collection against the finite map.
use rr_net.Prelude.{
  ◌≡◌, refl, sym, ap, ◌∙◌, fun_ext, subst, List, [], ◌∷◌, ◌++◌, none, String, arith, eq_iff,
}
use rr_net.Keyed.{
  Keyed, id_of, Shelf, replace_in, remove_from, edit_in, Change, lists, opens, closes, appends,
  prepends, replaces, removes, edits, edits_open, change, changes, found, contents, put, at_key,
  erase, effect, effects, Fits, FitsAll,
}

module _ {A : Type 0} ⦃k : Keyed A⦄ where
  pub found-append :
      (a : A) (l : List A) (j : String)
      → found l (id_of a) ≡ none
      → found (l ++ a ∷ []) j ≡ put a (found l) j
  found-append a [] j h = refl
  found-append a (x ∷ l) j h = ground (
    arith,
    found-append a l j,
    eq_iff (id_of x) (id_of a),
    eq_iff (id_of x) j,
    eq_iff (id_of a) j,
  )

  pub found-replace_in :
      (id : String) (a : A) (l : List A) (j : String)
      → id_of a ≡ id
      → found (replace_in id a l) j ≡ at_key id (λ x. a) (found l) j
  found-replace_in id a [] j h = ground arith
  found-replace_in id a (x ∷ l) j h =
      ground
        (arith, found-replace_in id a l j h, eq_iff (id_of x) id, eq_iff (id_of x) j, eq_iff id j)

  pub found-edit_in :
      (id : String) (f : A → A) (l : List A) (j : String)
      → ((x : A) → id_of (f x) ≡ id_of x)
      → found (edit_in id f l) j ≡ at_key id f (found l) j
  found-edit_in id f [] j h = ground arith
  found-edit_in id f (x ∷ l) j h =
      ground
        (arith, found-edit_in id f l j h, h x, eq_iff (id_of x) id, eq_iff (id_of x) j, eq_iff id j)

  pub found-remove_from :
      (id : String) (l : List A) (j : String) → found (remove_from id l) j ≡ erase id (found l) j
  found-remove_from id [] j = ground arith
  found-remove_from id (x ∷ l) j =
      ground (arith, found-remove_from id l j, eq_iff (id_of x) id, eq_iff (id_of x) j, eq_iff id j)

  pub contents-change :
      (s : Shelf A) (c : Change A) (j : String)
      → Fits (contents s) c
      → contents (change s c) j ≡ effect (contents s) c j
  contents-change s (lists l) j h = refl
  contents-change s (opens a) j h = refl
  contents-change s closes j h = refl
  contents-change s (appends a) j h = found-append a s.items j h
  contents-change s (prepends a) j h = refl
  contents-change s (replaces id a) j h = found-replace_in id a s.items j h
  contents-change s (removes id) j h = found-remove_from id s.items j
  contents-change s (edits id f) j h = found-edit_in id f s.items j h
  contents-change s (edits_open id f) j h = found-edit_in id f s.items j h

  -- Changes that fit the map leave the collection with the contents that the map then has: by any
  -- id, the list yields the item that the map holds.
  pub contents-changes :
      (s : Shelf A) (cs : List (Change A))
      → FitsAll (contents s) cs
      → contents (changes s cs) ≡ effects (contents s) cs
  contents-changes s [] h = refl
  contents-changes s (c ∷ cs) (h, hs) =
      let e : contents (change s c) ≡ effect (contents s) c =
        fun_ext (λ j. contents-change s c j h) in
      contents-changes (change s c) cs (subst (λ m. FitsAll m cs) (sym e) hs)
      ∙ ap (λ m. effects m cs) e

  pub changes-append :
      (s : Shelf A) (xs ys : List (Change A)) → changes s (xs ++ ys) ≡ changes (changes s xs) ys
  changes-append s [] ys = refl
  changes-append s (x ∷ xs) ys = changes-append (change s x) xs ys
