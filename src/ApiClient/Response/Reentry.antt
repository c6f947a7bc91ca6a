-- ===== src/ApiClient/Response/Reentry.antt =====
-- The auth store's `refresh` and `logout` (fe/src/stores/authStore.ts), which the interceptors await, send
-- requests through the same interceptors (fe/src/lib/api/authService.ts).
use rr_net.Prelude.{ℕ, suc, ◌≤◌, ◌≡◌, true, false, List, [], ◌∷◌, Option, none, some, String, arith}
use rr_net.Errors.{AxiosError, post}
use rr_net.ApiClient.{
  Client, Request, Env, Start, refreshes, waits, begin_request, refresh_if_needed, expires,
  sync_token,
}
use rr_net.ApiClient.Response.{
  Action, resend_later, calls_logout, is_401, is_dashboard_endpoint, on_error, after_failure,
  try_store_token, try_refresh,
}

abbrev post_to : String → Request
post_to url = record {
  url = url;
  method = some post;
  authorization = none;
  tenant_header = none;
  csrf_header = none;
  retry_once = false;
  retry = false;
  retry_count = 0;
}

unfoldable pub refresh_request : Request
refresh_request = post_to "/auth/refresh"

unfoldable pub logout_request : Request
logout_request = post_to "/auth/logout"

-- How many calls of `logout` are entered, one inside of the other, when their requests get these answers:
-- each one calls the next before its own request has ended.
abbrev nested : (Client → ℕ) → Action × Client → ℕ
nested again (calls_logout, c) = suc (again c)
nested again (a, c) = 0

unfoldable pub logouts : Client → List AxiosError → ℕ
logouts c [] = 0
logouts c (e ∷ es) = nested (λ c'. logouts c' es) (on_error c logout_request e none)

abbrev Calls : Start → Type 0
Calls (refreshes t c) = (c.is_refreshing ≡ true) × (c.has_callbacks ≡ true)
Calls _ = Unit

begin_request-Calls : (env : Env) (c : Client) → Calls (begin_request env c)
unfolding begin_request refresh_if_needed
begin_request-Calls env c = ground arith

begin_request-waits :
    (env : Env) (c : Client)
    → c.is_refreshing ≡ true
    → c.has_callbacks ≡ true
    → expires env (sync_token c).access_token ≡ true
    → begin_request env c ≡ waits (sync_token c).access_token (sync_token c)
unfolding begin_request refresh_if_needed
begin_request-waits env c f b h = ground arith

-- When the request interceptor calls the refresh callback ahead of time, the client that it leaves makes
-- the interceptor of the callback's own request wait for that same refresh, if the token is still close
-- to its end then.
pub refreshes-waits :
    (env env' : Env) (c c' : Client) (t : Option String)
    → begin_request env c ≡ refreshes t c'
    → expires env' (sync_token c').access_token ≡ true
    → begin_request env' c' ≡ waits (sync_token c').access_token (sync_token c')
refreshes-waits env env' c c' t e h =
    let calls = rw e at (begin_request-Calls env c) in begin_request-waits env' c' calls.0 calls.1 h

-- The same in the error branch: while a refresh is in progress, its own request is to be resent only when
-- that refresh ends, if the backend answers it with 401 after the store's token was tried and fewer than
-- two 401 answers in a row are counted.
pub refresh_request-resend_later :
    (c : Client) (e : AxiosError) (header : Option String)
    → c.is_refreshing ≡ true
    → c.has_callbacks ≡ true
    → c.auth_failures ≤ 1
    → is_401 e ≡ true
    → let req = record refresh_request { retry_once = true } in
      (on_error c req e header).0 ≡ resend_later (record req { retry = true })
unfolding on_error after_failure try_store_token try_refresh refresh_request is_dashboard_endpoint
refresh_request-resend_later c e header f b k h = ground arith
