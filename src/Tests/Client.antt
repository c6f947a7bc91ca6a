-- ===== src/Tests/Client.antt =====
-- The API client of fe/src/lib/api/apiClient.ts, with a signed-in user and a server that refuses.
use rr_net.Prelude.{ℕ, ◌≤◌, ◌≡◌, ◌⊎◌, refl, true, false, none, some, String, List, [], ◌∷◌}
use rr_net.Errors.{AxiosError, Response, get, post}
use rr_net.ApiClient.{
  Client, Request, Waited, Env, begin_request, waits, refresh_if_needed, is_token_expiring_soon,
  on_request, is_exempt,
}
use rr_net.ApiClient.Requests.{on_request-IsGuarded, IsGuarded}
use rr_net.ApiClient.Csrf as Csrf
use rr_net.ApiClient.Csrf.Answers.{run-answered, IsIn}
use rr_net.ApiClient.Response.{circuit_breaker, failed, on_error, go_on, is_dashboard_endpoint}
use rr_net.ApiClient.Response.Breaker.{no_session_expired}
use rr_net.ApiClient.Response.Reentry.{refreshes-waits}
use rr_net.ApiClient.Retry.{failure, Pass, sends, sends-bound}

abbrev signed_in : Client
signed_in = record {
  access_token = some "t0";
  tenant_slug = some "acme";
  csrf_token = none;
  is_refreshing = false;
  auth_failures = 0;
  has_callbacks = true;
  store_token = some "t0";
  store_refresh_token = some "r0";
}

abbrev tired : Client
tired = record signed_in { auth_failures = 2 }

abbrev listing : Request
listing = record {
  url = "/clients";
  method = some get;
  authorization = none;
  tenant_header = none;
  csrf_header = none;
  retry_once = false;
  retry = false;
  retry_count = 0;
}

abbrev creating : Request
creating = record listing { method = some post }

abbrev answer : ℕ → Response
answer status = record { status = status; error = none; message = none; code = none }

abbrev error_of : ℕ → AxiosError
error_of status = record {
  message = "Request failed";
  code = none;
  response = some (answer status);
  url = "/clients";
  method = some get;
}

abbrev waited : Waited
waited = record { returned = true; later = record signed_in { store_token = some "t1" } }

abbrev env : Env
env = record { now = 5; expiration = λ t. none; fetch_csrf = λ c. some (some "x") }

abbrev with_query : String → String
with_query url = url

on_request-IsGuarded_example :
    IsGuarded
      (on_request with_query env signed_in waited creating).0
      (on_request with_query env signed_in waited creating).1
unfolding is_exempt
on_request-IsGuarded_example = on_request-IsGuarded with_query env signed_in waited creating refl

abbrev refusals : List AxiosError
refusals = error_of 401 ∷ error_of 401 ∷ error_of 401 ∷ []

no_session_expired_example :
    (circuit_breaker ≡ circuit_breaker) ⊎ (circuit_breaker ≡ failed (error_of 401))
unfolding on_error go_on is_dashboard_endpoint
no_session_expired_example =
    no_session_expired tired listing (error_of 401) none waited circuit_breaker refl refl refl

-- A token with a minute left.
abbrev late : Env
late = record env { expiration = λ t. some 60_005 }

abbrev refreshing : Client
refreshing = record signed_in { is_refreshing = true }

refreshes-waits_example : begin_request late refreshing ≡ waits (some "t0") refreshing
refreshes-waits_example =
    refreshes-waits late late signed_in refreshing (some "t0")
      (unfold begin_request refresh_if_needed is_token_expiring_soon in refl)
      (unfold is_token_expiring_soon in refl)

-- A server that answers 503 three times.
abbrev down : Pass
down = record {
  env = env;
  before = signed_in;
  first_wait = waited;
  answer = failure (error_of 503) none;
  found = signed_in;
  last_wait = waited;
  woken = signed_in;
}

sends-bound_example : sends with_query listing (down ∷ down ∷ down ∷ []) ≤ 4
sends-bound_example = sends-bound with_query listing (down ∷ down ∷ down ∷ [])

-- Two calls share a fetch, and a third one finds the token.
abbrev csrf_events : List Csrf.Event
csrf_events =
    Csrf.calls 0
    ∷ Csrf.calls 1
    ∷ Csrf.ends Csrf.failed (Csrf.header (some "c1"))
    ∷ Csrf.calls 2
    ∷ []

-- The first call waits for the fetch that it starts.
run-answered_example : IsIn (0, some "c1") (Csrf.run (Csrf.fresh none) csrf_events).answered
run-answered_example =
    run-answered (Csrf.fresh none)
      (Csrf.calls 1 ∷ Csrf.ends Csrf.failed (Csrf.header (some "c1")) ∷ Csrf.calls 2 ∷ []) 0
      (some "c1") (unfold Csrf.fetch_csrf_token in refl)

one_request : Csrf.requests (Csrf.fresh none) csrf_events ≡ 1
unfolding Csrf.requests Csrf.perform Csrf.ensure Csrf.settle Csrf.fetch_csrf_token
one_request = refl
