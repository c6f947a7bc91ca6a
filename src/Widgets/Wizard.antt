-- ===== src/Widgets/Wizard.antt =====
-- fe/src/components/forms/FormWizard.tsx. The number of steps is `n`; the form's values are a map from
-- fields to values of any type, and `on_complete` is the list of its calls, the last one first.
use rr_net.Prelude.{
  ℕ, suc, ◌+◌, ◌-◌, ◌≤◌, ◌<◌, ◌==◌, ◌≡◌, leb, Bool, true, false, not, ◌&&◌, ◌||◌, List, [], ◌∷◌,
  Option, none, String, subst, refl, arith, if◌then◌else◌, Bool-cases, inl, inr,
}
use rr_net.Types.{or_first}

abbrev pub Values : Type 0 → Type 0
Values V = String → Option V

-- `{ ...old, ...new }`.
abbrev merge : {V : Type 0} → Values V → Values V → Values V
merge old new k = or_first (new k) (old k)

pub record Wizard (V : Type 0) : Type 0 where
  pub current_step : ℕ
  pub completed_steps : ℕ → Bool
  pub form_data : Values V
  pub on_complete : List (Values V)

abbrev pub opened : {V : Type 0} → Wizard V
opened = record {
  current_step = 0;
  completed_steps = λ i. false;
  form_data = λ k. none;
  on_complete = [];
}

-- `new Set(prev).add(step)`.
abbrev add_step : (ℕ → Bool) → ℕ → ℕ → Bool
add_step s step i = (i == step) || s i

unfoldable pub handle_next : {V : Type 0} → (n : ℕ) → Wizard V → Values V → Wizard V
handle_next n w v =
    let data' = merge w.form_data v in
    let done = add_step w.completed_steps w.current_step in
    if w.current_step + 1 == n
    then record w { completed_steps = done; form_data = data'; on_complete = data' ∷ w.on_complete }
    else record w { current_step = w.current_step + 1; completed_steps = done; form_data = data' }

unfoldable pub handle_previous : {V : Type 0} → Wizard V → Wizard V
handle_previous w =
    if w.current_step == 0 then w else record w { current_step = w.current_step - 1 }

-- Only steps that exist can be clicked.
unfoldable pub handle_step_click : {V : Type 0} → (allow_jump : Bool) → Wizard V → ℕ → Wizard V
handle_step_click allow_jump w i =
    if allow_jump && (leb i w.current_step || w.completed_steps i)
    then record w { current_step = i }
    else w

pub data Event (V : Type 0) : Type 0 where
  next : Values V → Event V
  previous : Event V
  click : ℕ → Event V

unfoldable pub perform : {V : Type 0} → (n : ℕ) (allow_jump : Bool) → Wizard V → Event V → Wizard V
perform n jump w (next v) = handle_next n w v
perform n jump w previous = handle_previous w
perform n jump w (click i) = handle_step_click jump w i

unfoldable pub run :
    {V : Type 0} → (n : ℕ) (allow_jump : Bool) → Wizard V → List (Event V) → Wizard V
run n jump w [] = w
run n jump w (e ∷ es) = run n jump (perform n jump w e) es

-- Something was handed over only at the end.
abbrev IsEnd : {V : Type 0} → (n m : ℕ) → List (Values V) → Type 0
IsEnd n m [] = Unit
IsEnd n m (v ∷ vs) = m ≡ n

-- The completed steps are the first `m`, and the open step is at most the next one.
abbrev IsPrefix : {V : Type 0} → (n m : ℕ) → Wizard V → Type 0
IsPrefix n m w =
    (w.current_step < n)
    × (w.current_step ≤ m)
    × (m ≤ n)
    × ((i : ℕ) → w.completed_steps i ≡ leb (suc i) m)
    × IsEnd n m w.on_complete

abbrev HasPrefix : {V : Type 0} → (n : ℕ) → Wizard V → Type 0
HasPrefix n w = (m : ℕ) × IsPrefix n m w

opened-HasPrefix : (V : Type 0) (n : ℕ) → 0 < n → HasPrefix n (opened {V = V})
opened-HasPrefix V n h = (0, (h, ground arith, ground arith, λ i. ground arith, tt))

module _ {V : Type 0} where
  IsEnd-bounded : (n m : ℕ) (l : List (Values V)) → m < n → IsEnd n m l → (m' : ℕ) → IsEnd n m' l
  IsEnd-bounded n m [] b h m' = tt
  IsEnd-bounded n m (v ∷ l) b h m' = ground arith

  handle_next-HasPrefix :
      (n : ℕ) (w : Wizard V) (v : Values V) → HasPrefix n w → HasPrefix n (handle_next n w v)
  unfolding handle_next
  handle_next-HasPrefix n w v (m, (c, b, t, d, e)) =
      elim (Bool-cases (w.current_step + 1 == n)) as (λ x. HasPrefix n (handle_next n w v)) [
        | inl y ↦ rw y (n, (c, ground arith, ground arith, λ i. ground (arith, d i), refl))
        | inr y ↦
            elim (Bool-cases (leb (suc w.current_step) m))
              as (λ x. HasPrefix n (handle_next n w v)) [
                | inl o ↦ rw y (m, (ground arith, ground arith, t, λ i. ground (arith, d i), e))
                | inr o ↦ rw y (
                  w.current_step + 1,
                  (
                    ground arith,
                    ground arith,
                    ground arith,
                    λ i. ground (arith, d i),
                    IsEnd-bounded n m w.on_complete (ground arith) e (w.current_step + 1),
                  ),
                )
              ]
      ]

  perform-HasPrefix :
      (n : ℕ) (jump : Bool) (w : Wizard V) (e : Event V)
      → HasPrefix n w
      → HasPrefix n (perform n jump w e)
  unfolding perform handle_previous handle_step_click
  perform-HasPrefix n jump w (next v) h = handle_next-HasPrefix n w v h
  perform-HasPrefix n jump w previous (m, (c, b, t, d, e)) =
      elim (Bool-cases (w.current_step == 0)) as (λ x. HasPrefix n (perform n jump w previous)) [
        | inl z ↦ rw z (m, (c, b, t, d, e))
        | inr z ↦ rw z (m, (ground arith, ground arith, t, d, e))
      ]
  perform-HasPrefix n jump w (click i) (m, (c, b, t, d, e)) =
      elim (Bool-cases (jump && (leb i w.current_step || w.completed_steps i)))
        as (λ x. HasPrefix n (perform n jump w (click i))) [
          | inl y ↦ rw y (m, (ground (arith, d i), ground (arith, d i), t, d, e))
          | inr y ↦ rw y (m, (c, b, t, d, e))
        ]

  run-HasPrefix :
      (n : ℕ) (jump : Bool) (w : Wizard V) (es : List (Event V))
      → HasPrefix n w
      → HasPrefix n (run n jump w es)
  unfolding run
  run-HasPrefix n jump w [] h = h
  run-HasPrefix n jump w (e ∷ es) h =
      run-HasPrefix n jump (perform n jump w e) es (perform-HasPrefix n jump w e h)

  -- However a wizard with at least one step is used, with or without jumping, the open step exists, and
  -- all steps before it are completed.
  pub run-completed :
      (n : ℕ) (jump : Bool) (es : List (Event V)) (i : ℕ)
      → 0 < n
      → let w = run n jump (opened {V = V}) es in
        (w.current_step < n) × ((leb (suc i) w.current_step && not (w.completed_steps i)) ≡ false)
  run-completed n jump es i h =
      let (m, (c, b, t, d, e)) = run-HasPrefix n jump opened es (opened-HasPrefix V n h) in
      (c, ground (arith, d i))

  -- The values are handed over only after every step has been completed, also when the user jumps.
  pub run-on_complete :
      (n : ℕ) (jump : Bool) (es : List (Event V)) (v : Values V) (vs : List (Values V)) (i : ℕ)
      → 0 < n
      → (run n jump opened es).on_complete ≡ v ∷ vs
      → i < n
      → (run n jump opened es).completed_steps i ≡ true
  run-on_complete n jump es v vs i h e b =
      let (m, (c, b', t, d, f)) = run-HasPrefix n jump opened es (opened-HasPrefix V n h) in
      let g : m ≡ n = subst (IsEnd n m) e f in ground (arith, d i)
