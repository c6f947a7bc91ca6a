-- ===== src/Tempo.antt =====
-- fe/src/lib/billingTempoLocal.ts: tempo templates in the browser's storage. `parse` and `stringify` are
-- JSON's, with `none` for the exception; the storage is the text under one key.
use rr_net.Prelude.{
  ℕ, ◌≡◌, refl, ap, ◌∙◌, true, not, List, [], ◌∷◌, ◌++◌, filter, Option, none, some, String, str_eq,
  eq_iff, eq_refl, truthy, arith, if◌then◌else◌, find?,
}
use rr_net.Types.{or_else}
use rr_net.Keyed.{Keyed, found, put, erase, at_key}
use rr_net.Keyed.Laws.{found-append, found-remove_from}

pub record TempoTemplate : Type 0 where
  pub id : String
  pub name : String
  pub day : ℕ
  pub description : Option String
  pub created_at : Option String
  pub updated_at : Option String

instance abbrev pub template_keyed : Keyed TempoTemplate
template_keyed = record { id_of = λ x. x.id }

-- The fields that a caller may give, and those it may change.
pub record NewTemplate : Type 0 where
  pub name : String
  pub day : ℕ
  pub description : Option String

pub record Updates : Type 0 where
  pub name : Option String
  pub day : Option ℕ
  pub description : Option (Option String)

abbrev pub Storage : Type 0
Storage = Option String

module _ (parse : String → Option (List TempoTemplate))
    (stringify : List TempoTemplate → String) where
  unfoldable pub list : Storage → List TempoTemplate
  list none = []
  list (some text) = if truthy text then or_else (parse text) [] else []

  -- `id` is the fresh one, and `now` the time. The template, and the storage.
  unfoldable pub create : (id now : String) → Storage → NewTemplate → TempoTemplate × Storage
  unfolding list
  create id now st t =
      let new_template : TempoTemplate = record {
        id = id;
        name = t.name;
        day = t.day;
        description = t.description;
        created_at = some now;
        updated_at = some now;
      } in
      (new_template, some (stringify (list st ++ new_template ∷ [])))

  abbrev pub updated : (now : String) → Updates → TempoTemplate → TempoTemplate
  updated now u t = record t {
    name = or_else u.name t.name;
    day = or_else u.day t.day;
    description = or_else u.description t.description;
    updated_at = some now;
  }

  -- The list with the first template of the id updated.
  abbrev pub update_first : (now id : String) → Updates → List TempoTemplate → List TempoTemplate
  update_first now id u [] = []
  update_first now id u (t ∷ ts) =
      if str_eq t.id id then updated now u t ∷ ts else t ∷ update_first now id u ts

  abbrev update_with :
      (now : String)
      → Storage
      → String
      → Updates
      → Option TempoTemplate
      → Option (TempoTemplate × Storage)
  update_with now st id u none = none
  update_with now st id u (some t) =
      some (updated now u t, some (stringify (update_first now id u (list st))))

  -- `none` is the thrown "Template not found".
  unfoldable pub update :
      (now : String) → Storage → String → Updates → Option (TempoTemplate × Storage)
  unfolding list
  update now st id u = update_with now st id u (find? (λ t. str_eq t.id id) (list st))

  unfoldable pub delete : Storage → String → Storage
  unfolding list
  delete st id = some (stringify (filter (λ t. not (str_eq t.id id)) (list st)))

  -- JSON reads back every list that it wrote, which is not the empty text.
  abbrev pub RoundTrips : List TempoTemplate → Type 0
  RoundTrips l = (parse (stringify l) ≡ some l) × (truthy (stringify l) ≡ true)

  list-stringify : (l : List TempoTemplate) → RoundTrips l → list (some (stringify l)) ≡ l
  unfolding list
  list-stringify l (p, t) = rw (t, p) refl

  found-update_first :
      (now id : String) (u : Updates) (l : List TempoTemplate) (j : String)
      → found (update_first now id u l) j ≡ at_key id (updated now u) (found l) j
  found-update_first now id u [] j = ground arith
  found-update_first now id u (t ∷ l) j =
      ground (arith, found-update_first now id u l j, eq_iff t.id id, eq_iff t.id j, eq_iff id j)

  -- A template that is created is found by its id, and the others stay. The id is a new one.
  pub list-create :
      (id now : String) (st : Storage) (t : NewTemplate) (j : String)
      → let (new, st') = create id now st t in
        RoundTrips (list st ++ new ∷ [])
        → found (list st) id ≡ none
        → found (list st') j ≡ put new (found (list st)) j
  unfolding create
  list-create id now st t j r h =
      let new = (create id now st t).0 in
      ap (λ l. found l j) (list-stringify (list st ++ new ∷ []) r) ∙ found-append new (list st) j h

  -- What an update of the template `id` comes to, for the templates before it.
  abbrev pub IsUpdate :
      (now id : String)
      → Updates
      → List TempoTemplate
      → (j : String) → Option (TempoTemplate × Storage)
      → Type 0
  IsUpdate now id u l j none = found l id ≡ none
  IsUpdate now id u l j (some (t, st)) =
      (found (list st) id ≡ some t) × (found (list st) j ≡ at_key id (updated now u) (found l) j)

  update_with-IsUpdate :
      (now : String) (st : Storage) (id : String) (u : Updates) (j : String)
      (o : Option TempoTemplate)
      → found (list st) id ≡ o
      → list (some (stringify (update_first now id u (list st)))) ≡ update_first now id u (list st)
      → IsUpdate now id u (list st) j (update_with now st id u o)
  update_with-IsUpdate now st id u j none e g = e
  update_with-IsUpdate now st id u j (some t) e g = (
    ap (λ l. found l id) g ∙ found-update_first now id u (list st) id ∙ rw (eq_refl id, e) refl,
    ap (λ l. found l j) g ∙ found-update_first now id u (list st) j,
  )

  -- An update fails exactly for an id that no template has; otherwise the template with the id is the
  -- updated one, which is returned, and the others stay.
  pub list-update :
      (now : String) (st : Storage) (id : String) (u : Updates) (j : String)
      → RoundTrips (update_first now id u (list st))
      → IsUpdate now id u (list st) j (update now st id u)
  unfolding update
  list-update now st id u j r =
      update_with-IsUpdate now st id u j (found (list st) id) refl
        (list-stringify (update_first now id u (list st)) r)

  -- A deleted template is not found, and the others stay.
  pub list-delete :
      (st : Storage) (id j : String)
      → RoundTrips (filter (λ t. not (str_eq t.id id)) (list st))
      → found (list (delete st id)) j ≡ erase id (found (list st)) j
  unfolding delete
  list-delete st id j r =
      ap (λ l. found l j) (list-stringify (filter (λ t. not (str_eq t.id id)) (list st)) r)
      ∙ found-remove_from id (list st) j
