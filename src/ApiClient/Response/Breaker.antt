-- ===== src/ApiClient/Response/Breaker.antt =====
-- The circuit breaker for 401 answers, and the rejections that a refresh can cause.
use rr_net.Prelude.{
  suc, ◌≤◌, ◌≡◌, refl, ap, ◌⊎◌, inl, inr, true, false, Option, none, String, arith, if◌then◌else◌,
}
use rr_net.Errors.{AxiosError, has_text}
use rr_net.ApiClient.{Client, Request, Waited, set_csrf_token, sync_token}
use rr_net.ApiClient.Response.{
  Rejection, circuit_breaker, session_expired, dashboard_unauthorized, unauthorized, failed, Action,
  reject, resend, resend_later, calls_refresh, calls_logout, is_401, is_dashboard_endpoint,
  on_error, after_failure, try_store_token, try_refresh, no_refresh_token, after_refresh, go_on,
  transient, with_token,
}

-- The answer that counts towards the breaker.
abbrev pub Counts : Request → AxiosError → Type 0
Counts req e = (is_401 e ≡ true) × (is_dashboard_endpoint req.url ≡ false)

abbrev once : Client → Request → Request
once c req = record req { retry_once = true; authorization = c.store_token }

abbrev counted : Client → Client
counted c = record c { auth_failures = suc c.auth_failures }

-- The third 401 in a row, on a request that is not for the dashboard, calls the logout.
on_error-third :
    (c : Client) (req : Request) (e : AxiosError) (header : Option String)
    → Counts req e
    → 2 ≤ c.auth_failures
    → (on_error c req e header).0 ≡ calls_logout
unfolding on_error after_failure
on_error-third c req e header h k = ground arith

first_401 :
    (c : Client) (req : Request) (e : AxiosError)
    → Counts req e
    → c.auth_failures ≡ 0
    → has_text c.store_token ≡ true
    → req.retry_once ≡ false
    → on_error c req e none
      ≡ (resend (once c req), record (counted c) { access_token = c.store_token })
unfolding on_error after_failure try_store_token
first_401 c req e h z t o = ground arith

second_401 :
    (c : Client) (req : Request) (e : AxiosError)
    → Counts req e
    → c.auth_failures ≡ 1
    → c.has_callbacks ≡ true
    → c.is_refreshing ≡ false
    → has_text c.store_refresh_token ≡ true
    → req.retry_once ≡ true
    → req.retry ≡ false
    → on_error c req e none
      ≡ (calls_refresh (record req { retry = true }), record (counted c) { is_refreshing = true })
unfolding on_error after_failure try_store_token try_refresh
second_401 c req e h z b f u o y = ground arith

-- Three 401 answers to one new request trip the breaker on their own, though the refresh between
-- them returns: the first is retried with the store's token, the second after the refresh, which
-- finds the count as it was, and the third calls the logout.
pub one_request_trips :
    (c : Client) (req : Request) (e : AxiosError) (w : Waited)
    → Counts req e
    → c.auth_failures ≡ 0
    → c.has_callbacks ≡ true
    → c.is_refreshing ≡ false
    → has_text c.store_token ≡ true
    → has_text c.store_refresh_token ≡ true
    → req.retry_once ≡ false
    → req.retry ≡ false
    → w.returned ≡ true
    → w.later.auth_failures ≡ 2
    → (r₁ r₂ : Request) × (c₁ c₂ : Client) × (on_error c req e none ≡ (resend r₁, c₁))
      × (go_on (on_error c₁ r₁ e none) w ≡ (resend r₂, c₂))
      × ((on_error c₂ r₂ e none).0 ≡ calls_logout)
unfolding go_on after_refresh with_token
one_request_trips c req e w h z b f t u o y y' k =
    let c1 : Client = record (counted c) { access_token = c.store_token } in
    let r2 : Request = with_token (sync_token w.later) (record (once c req) { retry = true }) in
    let c2 : Client = record (sync_token w.later) { is_refreshing = false } in
    let second = second_401 c1 (once c req) e h (ap suc z) b f u refl y in
    (
      once c req,
      r2,
      c1,
      c2,
      first_401 c req e h z t o,
      rw (second, y') refl,
      on_error-third c2 r2 e none (ground (arith, h)) (ground (arith, k)),
    )

-- What `no_session_expired` leaves of the rejections.
abbrev Only : AxiosError → Action → Type 0
Only e (reject circuit_breaker) = Unit
Only e (reject (failed e')) = e' ≡ e
Only e (reject _) = ⊥
Only e _ = Unit

no_refresh_token-Only :
    (c : Client) (req : Request) (e : AxiosError)
    → (req.retry ≡ true) ⊎ (is_401 e ≡ false)
    → Only e (no_refresh_token c req e).0
unfolding no_refresh_token transient
no_refresh_token-Only c req e h = ground arith

try_refresh-Only :
    (c : Client) (req : Request) (e : AxiosError)
    → c.has_callbacks ≡ true
    → Only e (try_refresh c req e).0
unfolding try_refresh
try_refresh-Only c req e b =
    ground (
      arith,
      no_refresh_token-Only c req e,
      no_refresh_token-Only c (record req { retry = true }) e,
    )

after_failure-Only :
    (c : Client) (req : Request) (e : AxiosError)
    → c.has_callbacks ≡ true
    → Only e (after_failure c req e).0
unfolding after_failure try_store_token
after_failure-Only c req e b = ground (
  arith,
  try_refresh-Only c req e,
  try_refresh-Only c (record req { retry_once = true }) e,
  try_refresh-Only (counted c) req e,
  try_refresh-Only (counted c) (record req { retry_once = true }) e,
)

go_on-Only :
    (e : AxiosError) (a : Action) (c : Client) (w : Waited)
    → w.returned ≡ true
    → Only e a
    → Only e (go_on (a, c) w).0
unfolding go_on after_refresh
go_on-Only e (calls_refresh r) c w y h = ground (arith, y)
go_on-Only e calls_logout c w y h = tt
go_on-Only e (reject x) c w y h = h
go_on-Only e (resend r) c w y h = h
go_on-Only e (resend_later r) c w y h = h

Only-reject :
    (e : AxiosError) (x : Rejection) → Only e (reject x) → (x ≡ circuit_breaker) ⊎ (x ≡ failed e)
Only-reject e circuit_breaker o = inl refl
Only-reject e (failed e') o = inr (ap failed o)
Only-reject e session_expired o = absurd o
Only-reject e dashboard_unauthorized o = absurd o
Only-reject e unauthorized o = absurd o

-- When the callbacks are set and a refresh that ends has returned, as the auth store's does, no error
-- ever ends in "Session expired" or in a 401 of the interceptor's own, neither at once nor after what it
-- awaits: only the breaker and the server's error are left.
pub no_session_expired :
    (c : Client) (req : Request) (e : AxiosError) (header : Option String) (w : Waited)
    (x : Rejection)
    → w.returned ≡ true
    → c.has_callbacks ≡ true
    → (go_on (on_error c req e header) w).0 ≡ reject x
    → (x ≡ circuit_breaker) ⊎ (x ≡ failed e)
unfolding on_error
no_session_expired c req e header w x returns b h =
    let c' = if has_text header then set_csrf_token header c else c in
    let r = on_error c req e header in
    let only = after_failure-Only c' req e (ground arith) in
    Only-reject e x (rw h at (go_on-Only e r.0 r.1 w returns only))
