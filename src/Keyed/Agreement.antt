-- ===== src/Keyed/Agreement.antt =====
-- The open item of a collection against the list.
use rr_net.Prelude.{
  ◌≡◌, sym, fun_ext, subst, List, [], ◌∷◌, Option, none, some, String, str_eq, arith, eq_iff, All,
  Bool-cases, inl, inr, if◌then◌else◌,
}
use rr_net.Keyed.{
  Keyed, id_of, is_open, open_edited, Shelf, Change, lists, opens, closes, appends, prepends,
  replaces, removes, edits, edits_open, change, changes, Contents, contents, put, at_key, erase,
  effect, Fits, FitsAll,
}
use rr_net.Keyed.Laws.{contents-change}

module _ {A : Type 0} ⦃k : Keyed A⦄ where
  abbrev Holds : Contents A → Option A → Type 0
  Holds m none = Unit
  Holds m (some a) = m (id_of a) ≡ some a

  -- The open item, if there is one, is the list's item with that id.
  abbrev pub Agrees : Shelf A → Type 0
  Agrees s = Holds (contents s) s.item

  -- Neither the list nor the open item is fetched, and an edit reaches both.
  abbrev pub Keeps : Change A → Type 0
  Keeps (lists l) = ⊥
  Keeps (opens a) = ⊥
  Keeps (edits id f) = ⊥
  Keeps _ = Unit

  put-Holds :
      (a : A) (m : Contents A) (o : Option A) → m (id_of a) ≡ none → Holds m o → Holds (put a m) o
  put-Holds a m none n h = tt
  put-Holds a m (some b) n h = ground (arith, eq_iff (id_of a) (id_of b))

  replace-Holds :
      (id : String) (a : A) (m : Contents A) (o : Option A)
      → id_of a ≡ id
      → Holds m o
      → Holds (at_key id (λ x. a) m) (if is_open id o then some a else o)
  replace-Holds id a m none i h = tt
  replace-Holds id a m (some b) i h = elim (Bool-cases (str_eq (id_of b) id)) [
    | inl y ↦ rw y (ground (arith, eq_iff (id_of b) id, eq_iff id (id_of a)))
    | inr n ↦ rw n (ground (arith, eq_iff id (id_of b), eq_iff (id_of b) id))
  ]

  remove-Holds :
      (id : String) (m : Contents A) (o : Option A)
      → Holds m o
      → Holds (erase id m) (if is_open id o then none else o)
  remove-Holds id m none h = tt
  remove-Holds id m (some b) h = elim (Bool-cases (str_eq (id_of b) id)) [
    | inl y ↦ rw y tt
    | inr n ↦ rw n (ground (arith, eq_iff id (id_of b), eq_iff (id_of b) id))
  ]

  edit-Holds :
      (id : String) (e : A → A) (m : Contents A) (o : Option A)
      → ((x : A) → id_of (e x) ≡ id_of x)
      → Holds m o
      → Holds (at_key id e m) (open_edited id e o)
  edit-Holds id e m none i h = tt
  edit-Holds id e m (some b) i h = elim (Bool-cases (str_eq (id_of b) id)) [
    | inl y ↦ rw y (rw (i b, h) (ground (arith, eq_iff id (id_of b), eq_iff (id_of b) id)))
    | inr n ↦ rw n (ground (arith, eq_iff id (id_of b), eq_iff (id_of b) id))
  ]

  effect-Holds :
      (s : Shelf A) (c : Change A)
      → Fits (contents s) c
      → Keeps c
      → Agrees s
      → Holds (effect (contents s) c) (change s c).item
  effect-Holds s (lists l) f g h = absurd g
  effect-Holds s (opens a) f g h = absurd g
  effect-Holds s closes f g h = tt
  effect-Holds s (appends a) f g h = put-Holds a (contents s) s.item f h
  effect-Holds s (prepends a) f g h = put-Holds a (contents s) s.item f h
  effect-Holds s (replaces id a) f g h = replace-Holds id a (contents s) s.item f h
  effect-Holds s (removes id) f g h = remove-Holds id (contents s) s.item h
  effect-Holds s (edits id e) f g h = absurd g
  effect-Holds s (edits_open id e) f g h = edit-Holds id e (contents s) s.item f h

  change-Agrees :
      (s : Shelf A) (c : Change A) → Fits (contents s) c → Keeps c → Agrees s → Agrees (change s c)
  change-Agrees s c f g h =
      subst (λ m. Holds m (change s c).item) (sym (fun_ext (λ j. contents-change s c j f)))
        (effect-Holds s c f g h)

  -- As long as neither is fetched, an open item and the list agree.
  pub changes-Agrees :
      (s : Shelf A) (cs : List (Change A))
      → FitsAll (contents s) cs
      → All Keeps cs
      → Agrees s
      → Agrees (changes s cs)
  changes-Agrees s [] f g h = h
  changes-Agrees s (c ∷ cs) (f, fs) (g, gs) h =
      changes-Agrees (change s c) cs
        (subst (λ m. FitsAll m cs) (sym (fun_ext (λ j. contents-change s c j f))) fs) gs
        (change-Agrees s c f g h)
