-- ===== src/ApiClient/Response/Budget.antt =====
-- Every pass of the error branch that sends a request again uses up one of its three marks.
use rr_net.Prelude.{ℕ, suc, ◌+◌, ◌-◌, ◌<◌, Bool, true, Option, String, arith, if◌then◌else◌}
use rr_net.Errors.{AxiosError, has_text}
use rr_net.ApiClient.{Client, Request, Waited, set_csrf_token}
use rr_net.ApiClient.Response.{
  Action, reject, resend, resend_later, on_error, transient, no_refresh_token, after_refresh,
  calls_refresh, calls_logout, go_on, try_refresh, try_store_token, after_failure,
}

abbrev unless : Bool → ℕ
unless b = if b then 0 else 1

-- How many times a request may still be resent.
abbrev pub budget : Request → ℕ
budget req = unless req.retry_once + unless req.retry + (1 - req.retry_count)

-- The request that a pass sends on may be resent fewer times.
abbrev pub Spends : ℕ → Action → Type 0
Spends b (reject x) = Unit
Spends b (resend r) = budget r < b
Spends b (resend_later r) = budget r < b
Spends b (calls_refresh r) = budget r < b
Spends b calls_logout = Unit

transient-Spends :
    (c : Client) (req : Request) (e : AxiosError) → Spends (budget req) (transient c req e).0
unfolding transient
transient-Spends c req e = ground arith

no_refresh_token-Spends :
    (c : Client) (req : Request) (e : AxiosError) → Spends (budget req) (no_refresh_token c req e).0
unfolding no_refresh_token
no_refresh_token-Spends c req e = ground (arith, transient-Spends c req e)

try_refresh-Spends :
    (c : Client) (req : Request) (e : AxiosError) → Spends (budget req) (try_refresh c req e).0
unfolding try_refresh
try_refresh-Spends c req e = ground (
  arith,
  no_refresh_token-Spends c req e,
  no_refresh_token-Spends c (record req { retry = true }) e,
)

try_store_token-Spends :
    (c : Client) (req : Request) (e : AxiosError) → Spends (budget req) (try_store_token c req e).0
unfolding try_store_token
try_store_token-Spends c req e =
    ground
      (arith, try_refresh-Spends c req e, try_refresh-Spends c (record req { retry_once = true }) e)

after_failure-Spends :
    (c : Client) (req : Request) (e : AxiosError) → Spends (budget req) (after_failure c req e).0
unfolding after_failure
after_failure-Spends c req e = ground (
  arith,
  try_store_token-Spends c req e,
  try_store_token-Spends (record c { auth_failures = suc c.auth_failures }) req e,
)

-- Whatever the answer to a failed request, a resend has strictly fewer marks left than the request
-- that failed.
pub on_error-Spends :
    (c : Client) (req : Request) (e : AxiosError) (header : Option String)
    → Spends (budget req) (on_error c req e header).0
unfolding on_error
on_error-Spends c req e header =
    after_failure-Spends (if has_text header then set_csrf_token header c else c) req e

go_on-Spends :
    (b : ℕ) (a : Action) (c : Client) (w : Waited) → Spends b a → Spends b (go_on (a, c) w).0
unfolding go_on after_refresh
go_on-Spends b (calls_refresh r) c w h = ground (arith, h)
go_on-Spends b calls_logout c w h = tt
go_on-Spends b (reject x) c w h = h
go_on-Spends b (resend r) c w h = h
go_on-Spends b (resend_later r) c w h = h

-- Also after what the branch awaits, a request that is sent again has fewer marks left.
pub answered-Spends :
    (c : Client) (req : Request) (e : AxiosError) (header : Option String) (w : Waited)
    → Spends (budget req) (go_on (on_error c req e header) w).0
answered-Spends c req e header w =
    let r = on_error c req e header in
    go_on-Spends (budget req) r.0 r.1 w (on_error-Spends c req e header)
