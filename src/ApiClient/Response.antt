-- ===== src/ApiClient/Response.antt =====
-- fe/src/lib/api/apiClient.ts: the response interceptor. The branch for errors is cut at the two
-- callbacks of the auth store that it awaits, `refresh` and `logout`.
pub mod Budget
pub mod Breaker
pub mod Reentry
use rr_net.Prelude.{
  ℕ, suc, ◌+◌, Bool, true, false, not, ◌&&◌, ◌||◌, Option, none, some, String, ltb, leb, ◌==◌,
  if◌then◌else◌,
}
use rr_net.Errors.{
  Thrown, error, AxiosError, ApiError, includes, has_text, is_retryable_request, transform,
}
use rr_net.ApiClient.{Client, Request, Refusal, Waited, sync_token, set_csrf_token}

pub data Rejection : Type 0 where
  -- 401 AUTH_CIRCUIT_BREAKER_TRIGGERED
  circuit_breaker : Rejection
  -- 401 SESSION_EXPIRED
  session_expired : Rejection
  -- 401 DASHBOARD_UNAUTHORIZED
  dashboard_unauthorized : Rejection
  -- 401 UNAUTHORIZED
  unauthorized : Rejection
  failed : AxiosError → Rejection

pub data Action : Type 0 where
  reject : Rejection → Action
  resend : Request → Action
  -- Sent again when the refresh that is running ends.
  resend_later : Request → Action
  -- Goes on after `refreshTokenCallback`, in `after_refresh`.
  calls_refresh : Request → Action
  -- Goes on after `logout` of the auth store, in `after_logout`.
  calls_logout : Action

abbrev pub max_auth_failures : ℕ
max_auth_failures = 3

abbrev pub max_retries : ℕ
max_retries = 1

unfoldable pub is_dashboard_endpoint : String → Bool
is_dashboard_endpoint url =
    includes url "/clients/stats"
    || includes url "/my/plan"
    || includes url "/my/features"
    || includes url "/my/limits"
    || includes url "/dashboard/summary"
    || includes url "/tenant/me"

unfoldable pub is_critical_auth_endpoint : String → Bool
is_critical_auth_endpoint url = includes url "/auth/me" || includes url "/auth/logout"

abbrev pub is_401 : AxiosError → Bool
is_401 e = elim e.response [ none ↦ false | some r ↦ r.status == 401 ]

-- The success branch.
unfoldable pub on_success : Client → Option String → Client
on_success c header =
    let c' = record c { auth_failures = 0 } in
    if has_text header then set_csrf_token header c' else c'

-- `onTokenRefreshedCallback("", "")`.
abbrev cleared : Client → Client
cleared c = record c {
  access_token = some "";
  store_token = some "";
  store_refresh_token = some "";
}

with_token : Client → Request → Request
with_token c req =
    if has_text c.access_token then record req { authorization = c.access_token } else req

refresh_failed : Client → Request → Action × Client
refresh_failed c req =
    if is_critical_auth_endpoint req.url then (reject session_expired, cleared c) else (
      reject (if is_dashboard_endpoint req.url then dashboard_unauthorized else unauthorized),
      c,
    )

-- What follows the refresh callback, in `try`, `catch` and `finally`.
unfoldable pub after_refresh : Waited → Request → Action × Client
unfolding with_token refresh_failed
after_refresh w req =
    let c = w.later in
    if w.returned
    then (let c' = sync_token c in
        (resend (with_token c' req), record c' { is_refreshing = false }))
    else (let (a, c') = refresh_failed c req in (a, record c' { is_refreshing = false }))

-- What follows the logout, also when it throws.
abbrev after_logout : Waited → Action × Client
after_logout w = (reject circuit_breaker, w.later)

-- The retry of transient errors, and the error as the callers see it.
transient : Client → Request → AxiosError → Action × Client
transient c req e =
    if is_retryable_request e && ltb req.retry_count max_retries
    then (resend (record req { retry_count = req.retry_count + 1 }), c)
    else (reject (failed e), c)

no_refresh_token : Client → Request → AxiosError → Action × Client
unfolding transient
no_refresh_token c req e =
    if is_401 e && not req.retry && (not c.has_callbacks || not (has_text c.store_refresh_token))
    then (if is_critical_auth_endpoint req.url
        then (reject session_expired, c)
        else (if is_dashboard_endpoint req.url
            then (reject dashboard_unauthorized, c)
            else transient c req e))
    else transient c req e

try_refresh : Client → Request → AxiosError → Action × Client
unfolding no_refresh_token
try_refresh c req e =
    if is_401 e && not req.retry && c.has_callbacks
    then (let req' = record req { retry = true } in
        if has_text c.store_refresh_token && not c.is_refreshing
        then (calls_refresh req', record c { is_refreshing = true })
        else (if c.is_refreshing then (resend_later req', c) else no_refresh_token c req' e))
    else no_refresh_token c req e

try_store_token : Client → Request → AxiosError → Action × Client
unfolding try_refresh
try_store_token c req e =
    if is_401 e && not req.retry_once
    then (let req' = record req { retry_once = true } in
        if has_text c.store_token
        then (resend (record req' { authorization = c.store_token }), sync_token c)
        else try_refresh c req' e)
    else try_refresh c req e

-- The circuit breaker comes first.
after_failure : Client → Request → AxiosError → Action × Client
unfolding try_store_token
after_failure c req e =
    if is_401 e && not (is_dashboard_endpoint req.url)
    then (let c' = record c { auth_failures = suc c.auth_failures } in
        if leb max_auth_failures c'.auth_failures
        then (calls_logout, c')
        else try_store_token c' req e)
    else try_store_token c req e

-- The error branch up to what it awaits; `header` is the CSRF token among the headers of the response.
unfoldable pub on_error : Client → Request → AxiosError → (header : Option String) → Action × Client
unfolding after_failure
on_error c req e header =
    after_failure (if has_text header then set_csrf_token header c else c) req e

-- The rest of the branch, once what it awaits has ended.
unfoldable pub go_on : Action × Client → Waited → Action × Client
unfolding after_refresh
go_on (calls_refresh req, c) w = after_refresh w req
go_on (calls_logout, c) w = after_logout w
go_on (a, c) w = (a, c)

-- A refusal of the request interceptor goes through the error branch too, where it has no `config`: what
-- the caller gets is the engine's error for reading `_retryCount` of `undefined`.
abbrev pub on_refusal : (engine_text : String) → Refusal → Thrown
on_refusal engine_text x = error "TypeError" engine_text
