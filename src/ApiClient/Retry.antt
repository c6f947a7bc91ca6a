-- ===== src/ApiClient/Retry.antt =====
-- How often a request is sent: both interceptors in a loop, against any server, and whatever happens to
-- the client while an interceptor waits. A resent request keeps the marks `_retry`, `_retryOnce` and
-- `_retryCount`.
use rr_net.Prelude.{
  ℕ, suc, ◌+◌, ◌≤◌, ◌<◌, ◌≡◌, refl, inl, inr, List, [], ◌∷◌, Option, none, some, String, arith,
  Bool-cases, if◌then◌else◌,
}
use rr_net.Errors.{AxiosError, has_text}
use rr_net.ApiClient.{
  Client, Request, Env, Waited, Prepared, ready, refused, on_request, begin_request, end_wait,
  with_csrf, ensure_csrf_token, CsrfEnd, obtained, failed, with_headers,
}
use rr_net.ApiClient.Requests.{needs_csrf}
use rr_net.ApiClient.Response.{
  Action, reject, resend, resend_later, calls_refresh, calls_logout, on_error, go_on,
}
use rr_net.ApiClient.Response.Budget.{budget, Spends, answered-Spends}

pub data Answer : Type 0 where
  success : (header : Option String) → Answer
  failure : AxiosError → (header : Option String) → Answer

-- One pass of a request through both interceptors: the client that each of them finds, the ends of what
-- they await, and the answer between them.
pub record Pass : Type 0 where
  pub env : Env
  pub before : Client
  pub first_wait : Waited
  pub answer : Answer
  pub found : Client
  pub last_wait : Waited
  -- The client when the refresh of another request wakes this one.
  pub woken : Client

-- The header that a request gets when the refresh that it waited for is over.
abbrev pub renewed : Client → Request → Request
renewed c req =
    if has_text c.access_token then record req { authorization = c.access_token } else req

-- The request to send again, if any.
abbrev pub resent : Client → Action → Option Request
resent woken (resend r) = some r
resent woken (resend_later r) = some (renewed woken r)
resent woken _ = none

unfoldable pub after_answer : Pass → Request → Answer → Option Request
after_answer p req (success header) = none
after_answer p req (failure e header) =
    resent p.woken (go_on (on_error p.found req e header) p.last_wait).0

abbrev again : (Request → ℕ) → Option Request → ℕ
again next none = 0
again next (some r) = next r

-- A refused request is not sent.
abbrev sent : (Request → ℕ) → Pass → Prepared → ℕ
sent next p (refused x) = 0
sent next p (ready r) = suc (again next (after_answer p r p.answer))

module _ (with_query : String → String) where
  -- How often the request is sent in these passes, one for each time.
  unfoldable pub sends : Request → List Pass → ℕ
  sends req [] = 0
  sends req (p ∷ ps) =
      sent (λ r. sends r ps) p (on_request with_query p.env p.before p.first_wait req).0

-- The request interceptor leaves the marks alone.
abbrev Keeps : Request → Prepared → Type 0
Keeps req (refused x) = Unit
Keeps req (ready r) = budget r ≡ budget req

with_csrf-Keeps :
    (req r : Request) (end : CsrfEnd) → budget r ≡ budget req → Keeps req (with_csrf r end)
unfolding with_csrf
with_csrf-Keeps req r failed h = tt
with_csrf-Keeps req r (obtained token) h = ground arith

on_request-Keeps :
    (with_query : String → String) (v : Env) (c : Client) (w : Waited) (req : Request)
    → Keeps req (on_request with_query v c w req).0
unfolding on_request
on_request-Keeps with_query v c w req = elim (Bool-cases (needs_csrf with_query req)) [
  | inl needs ↦
      rw (needs, on_request)
        (with_csrf-Keeps req (with_headers start.0 start.1 req) (ensure_csrf_token v start.1).0
          refl)
  | inr free ↦ rw (free, on_request) refl
]
  where
    start : Option String × Client
    start = end_wait (begin_request v c) w

abbrev Fewer : ℕ → Option Request → Type 0
Fewer b none = Unit
Fewer b (some r) = budget r < b

resent-Fewer : (b : ℕ) (c : Client) (a : Action) → Spends b a → Fewer b (resent c a)
resent-Fewer b c (reject x) h = tt
resent-Fewer b c (resend r) h = h
resent-Fewer b c (resend_later r) h = ground arith
resent-Fewer b c (calls_refresh r) h = tt
resent-Fewer b c calls_logout h = tt

after_answer-Fewer :
    (p : Pass) (req : Request) (a : Answer) → Fewer (budget req) (after_answer p req a)
unfolding after_answer
after_answer-Fewer p req (success header) = tt
after_answer-Fewer p req (failure e header) =
    resent-Fewer (budget req) p.woken (go_on (on_error p.found req e header) p.last_wait).0
      (answered-Spends p.found req e header p.last_wait)

again-bound :
    (next : Request → ℕ) (b : ℕ) (o : Option Request)
    → ((r : Request) → next r ≤ budget r + 1)
    → Fewer b o
    → again next o ≤ b
again-bound next b none more h = omega arith
again-bound next b (some r) more h = omega (arith, more r, h)

sent-bound :
    (next : Request → ℕ) (p : Pass) (req : Request) (x : Prepared)
    → ((r : Request) → next r ≤ budget r + 1)
    → Keeps req x
    → sent next p x ≤ budget req + 1
sent-bound next p req (refused x) more h = omega arith
sent-bound next p req (ready r) more h = omega (
  arith,
  again-bound next (budget r) (after_answer p r p.answer) more (after_answer-Fewer p r p.answer),
  h,
)

-- However the server answers, and whatever the interceptors find when what they await has ended, a
-- request is sent at most once more than it has marks left. (A new request has three, so it is sent four
-- times at most.)
pub sends-bound :
    (with_query : String → String) (req : Request) (ps : List Pass)
    → sends with_query req ps ≤ budget req + 1
unfolding sends
sends-bound with_query req [] = omega arith
sends-bound with_query req (p ∷ ps) =
    sent-bound (λ r. sends with_query r ps) p req _ (λ r. sends-bound with_query r ps)
      (on_request-Keeps with_query p.env p.before p.first_wait req)
