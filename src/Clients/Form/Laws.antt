-- ===== src/Clients/Form/Laws.antt =====
-- What the client form submits.
use rr_net.Prelude.{
  ℕ, ◌≡◌, ◌⊎◌, inl, inr, refl, sym, ap, ◌∙◌, subst, Bool, true, not, ◌&&◌, List, [], ◌∷◌, Option,
  none, some, String, str_eq, eq_refl, truthy, find?, any, arith, if◌then◌else◌, Bool-cases,
  Option-cases,
}
use rr_net.Clients.Form.{
  ClientFormData, TempoOption, standard, template, manual, TempoTemplate, TempoState,
  CreateClientRequest, Field, TempoError, Outcome, submits, is_lite, nonempty, is_filled,
  has_devices, validate, Tempo, find_template, tempo_of, payload, with_tempo, after_check,
  on_form_submit, fits_category, is_template, FitsTempo,
}

-- The data that the checks let through.
abbrev is_checked : (is_edit : Bool) → ClientFormData → Bool
is_checked is_edit d =
    if is_lite d.category
    then has_devices d.device_count
    else is_filled d.pppoe_username && (if is_edit then true else is_filled d.pppoe_password)

abbrev Passes : (is_edit : Bool) → Field ⊎ ClientFormData → Type 0
Passes is_edit (inl f) = Unit
Passes is_edit (inr d) = is_checked is_edit d ≡ true

validate-Passes : (is_edit : Bool) (d : ClientFormData) → Passes is_edit (validate is_edit d)
unfolding validate
validate-Passes is_edit d =
    elim (Bool-cases (is_lite d.category)) as (λ x. Passes is_edit (validate is_edit d)) [
      | inl l ↦
          elim (Bool-cases (has_devices d.device_count))
            as (λ x. Passes is_edit (validate is_edit d)) [
              | inl c ↦ rw (l, c) (ground arith)
              | inr c ↦ rw (l, c) tt
            ]
      | inr l ↦
          elim (Bool-cases (is_filled d.pppoe_username))
            as (λ x. Passes is_edit (validate is_edit d)) [
              | inl u ↦
                  elim (Bool-cases (not is_edit && not (is_filled d.pppoe_password)))
                    as (λ x. Passes is_edit (validate is_edit d)) [
                      | inl w ↦ rw (l, u, w) tt
                      | inr w ↦ rw (l, u, w) (ground arith)
                    ]
              | inr u ↦ rw (l, u) tt
            ]
    ]

is_filled-nonempty : (o : Option String) → is_filled (nonempty o) ≡ is_filled o
is_filled-nonempty none = refl
is_filled-nonempty (some t) = ground arith

payload-fits :
    (is_edit : Bool) (d : ClientFormData) (option : TempoOption) (tempo : Tempo)
    → is_checked is_edit d ≡ true
    → fits_category is_edit (payload d option tempo) ≡ true
unfolding payload
payload-fits is_edit d option tempo h = ground (arith, is_filled-nonempty d.pppoe_password)

abbrev FitsAt : (today : ℕ) → TempoState → TempoOption → Tempo → Type 0
FitsAt today t option (day, id) = elim option [
  | standard ↦ (day ≡ today) × (id ≡ none)
  | manual ↦ (day ≡ t.manual_day) × (id ≡ none)
  | template ↦ any (is_template id day) t.templates ≡ true
]

abbrev FitsOr : (today : ℕ) → TempoState → TempoOption → TempoError ⊎ Tempo → Type 0
FitsOr today t option (inl o) = Unit
FitsOr today t option (inr x) = FitsAt today t option x

abbrev or_self : TempoTemplate → Option TempoTemplate → TempoTemplate
or_self y none = y
or_self y (some z) = z

any-find? :
    (id : String) (l : List TempoTemplate) (x : TempoTemplate)
    → find? (λ y. str_eq y.id id) l ≡ some x
    → any (is_template (some x.id) x.due_day) l ≡ true
any-find? id [] x h = ground arith
any-find? id (y ∷ l) x h = elim (Bool-cases (str_eq y.id id)) [
  | inl e ↦
      let f : find? (λ z. str_eq z.id id) (y ∷ l) ≡ some y = rw e refl in
      let q : y ≡ x = ap (or_self y) (sym f ∙ h) in
      subst (λ z. any (is_template (some z.id) z.due_day) (y ∷ l) ≡ true) q
        (ground (arith, eq_refl y.id))
  | inr n ↦ ground (arith, any-find? id l x)
]

find_template-FitsOr : (today : ℕ) (t : TempoState) → FitsOr today t template (find_template t)
unfolding find_template
find_template-FitsOr today t =
    elim (Bool-cases (truthy t.selected_template_id))
      as (λ x. FitsOr today t template (find_template t)) [
        | inl y ↦
            elim (Option-cases (find? (λ x. str_eq x.id t.selected_template_id) t.templates))
              as (λ x. FitsOr today t template (find_template t)) [
                | inl n ↦ rw (y, n) tt
                | inr (x, e) ↦ rw (y, e) (any-find? t.selected_template_id t.templates x e)
              ]
        | inr n ↦ rw n tt
      ]

tempo_of-FitsOr :
    (today : ℕ) (t : TempoState) (option : TempoOption)
    → t.tempo_option ≡ option
    → FitsOr today t option (tempo_of today t)
unfolding tempo_of
tempo_of-FitsOr today t standard h = rw h (refl, refl)
tempo_of-FitsOr today t manual h = rw h (refl, refl)
tempo_of-FitsOr today t template h =
    subst
      (λ o. FitsOr today t template (elim o as (λ x. TempoError ⊎ Tempo) [
        | standard ↦ inr (today, none)
        | manual ↦ inr (t.manual_day, none)
        | template ↦ find_template t
      ]))
      (sym h) (find_template-FitsOr today t)

abbrev FitsOutcome : (is_edit : Bool) (today : ℕ) → TempoState → Outcome → Type 0
FitsOutcome is_edit today t (submits p) = (fits_category is_edit p ≡ true) × FitsTempo today t p
FitsOutcome is_edit today t _ = Unit

with_tempo-fits :
    (is_edit : Bool) (today : ℕ) (t : TempoState) (d : ClientFormData) (x : TempoError ⊎ Tempo)
    → is_checked is_edit d ≡ true
    → FitsOr today t t.tempo_option x
    → FitsOutcome is_edit today t (with_tempo d t.tempo_option x)
with_tempo-fits is_edit today t d (inl e) h f = tt
with_tempo-fits is_edit today t d (inr (day, id)) h f =
    (payload-fits is_edit d t.tempo_option (day, id) h, unfold payload in f)

after_check-fits :
    (is_edit : Bool) (today : ℕ) (t : TempoState) (x : Field ⊎ ClientFormData)
    → Passes is_edit x
    → FitsOutcome is_edit today t (after_check today t x)
after_check-fits is_edit today t (inl f) h = tt
after_check-fits is_edit today t (inr d) h =
    with_tempo-fits is_edit today t d (tempo_of today t) h
      (tempo_of-FitsOr today t t.tempo_option refl)

-- Whatever is submitted fits the client's category: a lite client has devices and no account, any other
-- the name of an account, no devices and, when it is new, a password. Its due day is today's, the
-- chosen one, or that of the template whose id is sent and which is offered.
pub on_form_submit_lem :
    (is_edit : Bool) (today : ℕ) (t : TempoState) (d : ClientFormData) (p : CreateClientRequest)
    → on_form_submit is_edit today t d ≡ submits p
    → (fits_category is_edit p ≡ true) × FitsTempo today t p
unfolding on_form_submit
on_form_submit_lem is_edit today t d p h =
    subst (FitsOutcome is_edit today t) h
      (after_check-fits is_edit today t (validate is_edit d) (validate-Passes is_edit d))
