-- ===== src/Routing/Concurrency.antt =====
-- What the limiter promises over any sequence of events.
use rr_net.Prelude.{
  ℕ, suc, ◌+◌, ◌-◌, ◌≤◌, ◌<◌, ◌≡◌, ◌⊎◌, inl, inr, refl, Bool, true, ◌&&◌, List, [], ◌∷◌, ◌++◌, ◌==◌,
  arith, length, Bool-cases,
}
use rr_net.Routing.{Limiter, idle, limit, resume, finish, Event, calls, resumes, ends, perform, run}

-- A call waits only while as many as allowed run or are about to.
abbrev Covers : ℕ → Limiter → Type 0
Covers concurrency s = (s.queue ≡ []) ⊎ (concurrency ≤ s.active + length s.woken)

length-snoc : (l : List ℕ) (k : ℕ) → length (l ++ k ∷ []) ≡ suc (length l)
length-snoc [] k = refl
length-snoc (x ∷ l) k = ground (arith, length-snoc l k)

List-cases : (l : List ℕ) → (l ≡ []) ⊎ ((k : ℕ) × (rest : List ℕ) × (l ≡ k ∷ rest))
List-cases [] = inl refl
List-cases (k ∷ rest) = inr (k, rest, refl)

-- The end of a task hands its place to the call that waits first.
finish_sum :
    (s : Limiter) (k : ℕ) (rest : List ℕ)
    → s.queue ≡ k ∷ rest
    → 0 < s.active
    → (finish s).active + length (finish s).woken ≡ s.active + length s.woken
unfolding finish
finish_sum s k rest e h = rw (e, finish) (omega (arith, length-snoc s.woken k))

finish_empty :
    (s : Limiter)
    → s.queue ≡ []
    → ((finish s).queue ≡ []) × ((finish s).active ≡ s.active - 1) × ((finish s).woken ≡ s.woken)
unfolding finish
finish_empty s e = rw (e, finish) (refl, refl, refl)

perform-Covers :
    (concurrency : ℕ) (s : Limiter) (e : Event)
    → Covers concurrency s
    → Covers concurrency (perform concurrency s e)
unfolding perform limit resume
perform-Covers concurrency s (calls k) h = ground arith
perform-Covers concurrency s resumes h = ground arith
perform-Covers concurrency s ends h = elim (Bool-cases (s.active == 0)) [
  | inl none_runs ↦ rw (none_runs, perform) h
  | inr one_runs ↦ elim (List-cases s.queue) [
    | inl empty ↦ rw (one_runs, perform) (inl (finish_empty s empty).0)
    | inr (k, rest, waits) ↦
        rw (one_runs, perform) (inr (ground (arith, finish_sum s k rest waits)))
  ]
]

run-Covers :
    (concurrency : ℕ) (s : Limiter) (es : List Event)
    → Covers concurrency s
    → Covers concurrency (run concurrency s es)
unfolding run
run-Covers concurrency s [] h = h
run-Covers concurrency s (e ∷ es) h =
    run-Covers concurrency (perform concurrency s e) es (perform-Covers concurrency s e h)

-- No wake-up is lost: whatever the calls, resumptions and ends were, while a call waits in the queue
-- at least as many calls as the limit allows are running or have been woken.
pub run-queue :
    (concurrency k : ℕ) (rest : List ℕ) (es : List Event)
    → (run concurrency idle es).queue ≡ k ∷ rest
    → concurrency ≤ (run concurrency idle es).active + length (run concurrency idle es).woken
run-queue concurrency k rest es h = elim (run-Covers concurrency idle es (inl refl)) [
  | inl empty ↦ cc
  | inr covered ↦ covered
]

-- Whether a call is made only while no woken call has still to go on.
unfoldable pub is_prompt : ℕ → Limiter → List Event → Bool
unfolding perform
is_prompt concurrency s [] = true
is_prompt concurrency s (calls k ∷ es) =
    length s.woken == 0 && is_prompt concurrency (perform concurrency s (calls k)) es
is_prompt concurrency s (e ∷ es) = is_prompt concurrency (perform concurrency s e) es

perform-bound :
    (concurrency : ℕ) (s : Limiter) (e : Event) (es : List Event)
    → is_prompt concurrency s (e ∷ es) ≡ true
    → s.active + length s.woken ≤ concurrency
    → ((perform concurrency s e).active + length (perform concurrency s e).woken ≤ concurrency)
      × (is_prompt concurrency (perform concurrency s e) es ≡ true)
unfolding perform limit resume is_prompt
perform-bound concurrency s (calls k) es p h = ground arith
perform-bound concurrency s resumes es p h = ground arith
perform-bound concurrency s ends es p h = elim (Bool-cases (s.active == 0)) [
  | inl none_runs ↦ (rw (none_runs, perform) h, p)
  | inr one_runs ↦ elim (List-cases s.queue) [
    | inl empty ↦ (rw (one_runs, perform) (ground (arith, finish_empty s empty)), p)
    | inr (k, rest, waits) ↦ (rw (one_runs, perform) (ground (arith, finish_sum s k rest waits)), p)
  ]
]

run-bound_from :
    (concurrency : ℕ) (s : Limiter) (es : List Event)
    → is_prompt concurrency s es ≡ true
    → s.active + length s.woken ≤ concurrency
    → (run concurrency s es).active ≤ concurrency
unfolding run
run-bound_from concurrency s [] p h = omega arith
run-bound_from concurrency s (e ∷ es) p h =
    let (h', p') = perform-bound concurrency s e es p h in
    run-bound_from concurrency (perform concurrency s e) es p' h'

-- When no call is made between the wake-up of a waiting call and the moment at which it goes on,
-- there are never more tasks running than the limit.
pub run-bound :
    (concurrency : ℕ) (es : List Event)
    → is_prompt concurrency idle es ≡ true
    → (run concurrency idle es).active ≤ concurrency
run-bound concurrency es p = run-bound_from concurrency idle es p (omega arith)
