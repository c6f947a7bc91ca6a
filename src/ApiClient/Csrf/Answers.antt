-- ===== src/ApiClient/Csrf/Answers.antt =====
-- What overlapping calls of `ensureCSRFToken` in fe/src/lib/api/apiClient.ts are answered with, and the
-- requests that they send.
use rr_net.Prelude.{
  ℕ, ◌+◌, ◌≤◌, ◌≡◌, ◌⊎◌, ap, subst, refl, inl, inr, Bool-cases, true, false, List, [], ◌∷◌, ◌++◌,
  map, length, length-append, Option, none, some, String, arith, if◌then◌else◌,
}
use rr_net.Errors.{has_text}
use rr_net.ApiClient.Csrf.{
  fetch_csrf_token, Csrf, ensure, settle, set_stored, Event, calls, ends, stores, perform, run,
  requests, call_count, end_count, fresh,
}

length-map : (f : ℕ → ℕ × Option String) (l : List ℕ) → length (map f l) ≡ length l
length-map f [] = refl
length-map f (x ∷ l) = ground (arith, length-map f l)

-- The calls wait only while a fetch is in progress.
abbrev IsSettled : Csrf → Type 0
IsSettled c = (if c.in_progress then 0 else length c.waiting) ≡ 0

perform-IsSettled : (c : Csrf) (e : Event) → IsSettled c → IsSettled (perform c e)
unfolding perform ensure settle set_stored
perform-IsSettled c (calls i) h = ground arith
perform-IsSettled c (ends me stats) h = ground arith
perform-IsSettled c (stores t) h = h

perform-total :
    (c : Csrf) (e : Event)
    → length (perform c e).waiting + length (perform c e).answered
      ≡ length c.waiting + length c.answered + call_count (e ∷ [])
unfolding perform ensure settle set_stored
perform-total c (calls i) = ground (arith, length-append c.waiting (i ∷ []))
perform-total c (ends me stats) =
    let t = fetch_csrf_token me stats in
    ground (
      arith,
      length-append (map (λ i. (i, t)) c.waiting) c.answered,
      length-map (λ i. (i, t)) c.waiting,
    )
perform-total c (stores t) = ground arith

run-total :
    (c : Csrf) (es : List Event)
    → IsSettled c
    → (length (run c es).waiting + length (run c es).answered
        ≡ length c.waiting + length c.answered + call_count es)
      × IsSettled (run c es)
unfolding run
run-total c [] h = (omega arith, h)
run-total c (calls i ∷ es) h =
    let r = run-total (perform c (calls i)) es (perform-IsSettled c (calls i) h) in
    (omega (arith, r.0, perform-total c (calls i)), r.1)
run-total c (ends me stats ∷ es) h =
    let r = run-total (perform c (ends me stats)) es (perform-IsSettled c (ends me stats) h) in
    (omega (arith, r.0, perform-total c (ends me stats)), r.1)
run-total c (stores t ∷ es) h =
    let r = run-total (perform c (stores t)) es (perform-IsSettled c (stores t) h) in
    (omega (arith, r.0, perform-total c (stores t)), r.1)

-- Once no fetch is in progress, every call has had an answer, and none waits.
run-count :
    (stored : Option String) (es : List Event)
    → (run (fresh stored) es).in_progress ≡ false
    → length (run (fresh stored) es).answered ≡ call_count es
run-count stored es h = let r = run-total (fresh stored) es refl in ground (arith, r.0, r.1)

-- What the first fetch to end, among the events, ends with.
abbrev first_end : List Event → Option (Option String)
first_end [] = none
first_end (ends me stats ∷ es) = some (fetch_csrf_token me stats)
first_end (e ∷ es) = first_end es

-- What a call is to be answered with, when these events follow: the stored token, or what the fetch in
-- progress, or the one that the call starts, ends with.
abbrev pub answer_due : Csrf → List Event → Option (Option String)
answer_due c es = if has_text c.stored then some c.stored else first_end es

abbrev pub IsIn : {A : Type 0} → A → List A → Type 0
IsIn p [] = ⊥
IsIn p (x ∷ l) = (x ≡ p) ⊎ IsIn p l

IsIn-after : {A : Type 0} (p : A) (a b : List A) → IsIn p b → IsIn p (a ++ b)
IsIn-after p [] b h = h
IsIn-after p (x ∷ a) b h = inr (IsIn-after p a b h)

IsIn-map :
    (i : ℕ) (t : Option String) (l : List ℕ) (b : List (ℕ × Option String))
    → IsIn i l
    → IsIn (i, t) (map (λ k. (k, t)) l ++ b)
IsIn-map i t [] b h = absurd h
IsIn-map i t (x ∷ l) b (inl e) = inl (ap (λ k. (k, t)) e)
IsIn-map i t (x ∷ l) b (inr h) = inr (IsIn-map i t l b h)

IsIn-before : {A : Type 0} (p : A) (a b : List A) → IsIn p a → IsIn p (a ++ b)
IsIn-before p [] b h = absurd h
IsIn-before p (x ∷ a) b (inl e) = inl e
IsIn-before p (x ∷ a) b (inr h) = inr (IsIn-before p a b h)

perform-keeps :
    (c : Csrf) (e : Event) (p : ℕ × Option String)
    → IsIn p c.answered
    → IsIn p (perform c e).answered
unfolding perform ensure settle set_stored
perform-keeps c (calls i) p h =
    elim (Bool-cases (has_text c.stored)) as (λ x. IsIn p (ensure c i).answered) [
      | inl y ↦ rw y (inr h)
      | inr n ↦ rw n h
    ]
perform-keeps c (ends me stats) p h =
    let t = fetch_csrf_token me stats in
    elim (Bool-cases c.in_progress) as (λ x. IsIn p (settle c t).answered) [
      | inl y ↦ rw y (IsIn-after p (map (λ i. (i, t)) c.waiting) c.answered h)
      | inr n ↦ rw n h
    ]
perform-keeps c (stores t) p h = h

run-keeps :
    (c : Csrf) (es : List Event) (p : ℕ × Option String)
    → IsIn p c.answered
    → IsIn p (run c es).answered
unfolding run
run-keeps c [] p h = h
run-keeps c (e ∷ es) p h = run-keeps (perform c e) es p (perform-keeps c e p h)

abbrev Waits : Csrf → ℕ → Type 0
Waits c i = (c.in_progress ≡ true) × IsIn i c.waiting

ensure-Waits : (c : Csrf) (k i : ℕ) → Waits c i → Waits (ensure c k) i
unfolding ensure
ensure-Waits c k i (f, h) = elim (Bool-cases (has_text c.stored)) as (λ x. Waits (ensure c k) i) [
  | inl y ↦ rw y (f, h)
  | inr n ↦ rw n (refl, IsIn-before i c.waiting (k ∷ []) h)
]

Waits-answered :
    (c : Csrf) (es : List Event) (i : ℕ) (t : Option String)
    → Waits c i
    → first_end es ≡ some t
    → IsIn (i, t) (run c es).answered
unfolding run perform settle set_stored
Waits-answered c [] i t w e = cc
Waits-answered c (calls k ∷ es) i t w e =
    Waits-answered (ensure c k) es i t (ensure-Waits c k i w) e
Waits-answered c (stores s ∷ es) i t w e = Waits-answered (set_stored c s) es i t w e
Waits-answered c (ends me stats ∷ es) i t (f, h) e =
    let u = fetch_csrf_token me stats in
    let here = IsIn-map i u c.waiting c.answered h in
    let same : u ≡ t = ground (arith, e) in
    run-keeps (settle c u) es (i, t)
      (rw f (subst (λ v. IsIn (i, v) (map (λ k. (k, u)) c.waiting ++ c.answered)) same here))

-- However calls for the token overlap, and whatever the endpoints answer: a call is answered with the
-- stored token, when there is one; if not, it is answered, once a fetch has ended, with what the first
-- fetch to end after the call ends with.
pub run-answered :
    (c : Csrf) (es : List Event) (i : ℕ) (t : Option String)
    → answer_due c es ≡ some t
    → IsIn (i, t) (run c (calls i ∷ es)).answered
unfolding run perform ensure
run-answered c es i t e =
    elim (Bool-cases (has_text c.stored)) as (λ x. IsIn (i, t) (run c (calls i ∷ es)).answered) [
      | inl y ↦ run-keeps (ensure c i) es (i, t) (rw y (inl (ground (arith, e, y))))
      | inr n ↦
          Waits-answered (ensure c i) es i t
            (rw n (refl, IsIn-after i c.waiting (i ∷ []) (inl refl))) (rw n at e)
    ]

-- The requests that are sent are at most one more than the fetches that have ended: two are never on
-- their way at once.
pub requests-bound :
    (c : Csrf) (es : List Event) → requests c es ≤ end_count es + (if c.in_progress then 0 else 1)
unfolding requests perform ensure settle set_stored
requests-bound c [] = omega arith
requests-bound c (calls i ∷ es) = ground (arith, requests-bound (ensure c i) es)
requests-bound c (ends me stats ∷ es) =
    ground (arith, requests-bound (settle c (fetch_csrf_token me stats)) es)
requests-bound c (stores t ∷ es) = ground (arith, requests-bound (set_stored c t) es)
