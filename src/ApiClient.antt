-- ===== src/ApiClient.antt =====
-- fe/src/lib/api/apiClient.ts: the variables of the module, and the request interceptor. The fields
-- `store_token` and `store_refresh_token` are those of the auth store (fe/src/stores/authStore.ts).
-- An interceptor that awaits the refresh callback or another request's refresh is cut there: `Start` says
-- what it awaits, and `Waited` what it finds if that ever ends. The wait for the auth store to be ready
-- comes before all of this: the client given is the one after it.
pub mod Response
pub mod Retry
pub mod Requests
pub mod Csrf
use text.Mathlib.Text.{starts_with}
use rr_net.Prelude.{
  ℕ, suc, ◌+◌, ◌-◌, Bool, true, false, not, ◌&&◌, ◌||◌, List, [], ◌∷◌, Option, none, some, String,
  str_eq, ◌==◌, ltb, leb, if◌then◌else◌, any, all, truthy, codes,
}
use rr_net.Errors.{Method, is_state_changing, has_text}

pub record Client : Type 0 where
  pub access_token : Option String
  pub tenant_slug : Option String
  pub csrf_token : Option String
  pub is_refreshing : Bool
  pub auth_failures : ℕ
  -- Whether the callbacks of `setRefreshTokenCallback` are set.
  pub has_callbacks : Bool
  pub store_token : Option String
  pub store_refresh_token : Option String

pub record Request : Type 0 where
  pub url : String
  pub method : Option Method
  pub authorization : Option String
  pub tenant_header : Option String
  pub csrf_header : Option String
  pub retry_once : Bool
  pub retry : Bool
  pub retry_count : ℕ

-- The end of a wait: whether the callback returned, and the client that is found then.
pub record Waited : Type 0 where
  pub returned : Bool
  pub later : Client

pub record Env : Type 0 where
  pub now : ℕ
  -- The expiry of a token in milliseconds, `null` when it cannot be read.
  pub expiration : String → Option ℕ
  -- The token that the backend gives, `none` within when it gives none; `none` for an exception.
  pub fetch_csrf : Client → Option (Option String)

-- Less than two minutes are left, and some are.
unfoldable pub is_token_expiring_soon : Option ℕ → ℕ → Bool
is_token_expiring_soon none now = false
is_token_expiring_soon (some exp) now =
    if exp == 0 then false else ltb now exp && ltb (exp - now) 120_000

abbrev pub set_access_token : Option String → Client → Client
set_access_token token c = record c { access_token = token }

abbrev pub set_tenant_slug : Option String → Client → Client
set_tenant_slug slug c = record c { tenant_slug = slug }

-- The store's token, when it has one, replaces the client's.
abbrev pub sync_token : Client → Client
sync_token c = if has_text c.store_token then record c { access_token = c.store_token } else c

abbrev pub expires : Env → Option String → Bool
expires env none = false
expires env (some t) = truthy t && is_token_expiring_soon (env.expiration t) env.now

-- The token to send and the client, once a wait is over: without a token in the store the old
-- one stays.
abbrev after_wait : Option String → Client → Option String × Client
after_wait current c =
    if has_text c.store_token then (c.store_token, sync_token c) else (current, c)

-- How the interceptor goes on with the token to send: at once, or after the refresh callback that it
-- calls, or after the refresh of another request, which wakes its subscribers.
pub data Start : Type 0 where
  goes_on refreshes waits : Option String → Client → Start

-- The refresh that a token close to its end sets off.
unfoldable pub refresh_if_needed : Env → Option String → Client → Start
unfolding is_token_expiring_soon
refresh_if_needed env current c =
    if expires env current && c.has_callbacks
    then (if has_text c.store_refresh_token && not c.is_refreshing
        then refreshes current (record c { is_refreshing = true })
        else (if c.is_refreshing then waits current c else goes_on current c))
    else goes_on current c

-- What follows the callback, in `try` and `finally`.
unfoldable pub end_refresh : Option String → Waited → Option String × Client
end_refresh current w =
    let (token, c) = if w.returned then after_wait current w.later else (current, w.later) in
    (token, record c { is_refreshing = false })

unfoldable pub end_wait : Start → Waited → Option String × Client
unfolding end_refresh
end_wait (goes_on current c) w = (current, c)
end_wait (refreshes current c) w = end_refresh current w
end_wait (waits current c) w = after_wait current w.later

abbrev is_space : ℕ → Bool
is_space c = (leb 9 c && leb c 13) || c == 32 || c == 160

-- `slug && slug.trim() !== ''`.
abbrev pub has_slug : Option String → Bool
has_slug none = false
has_slug (some s) = not (all is_space (codes s))

abbrev pub csrf_exempt_paths : List String
csrf_exempt_paths = "/auth/login" ∷ "/auth/register" ∷ "/auth/refresh" ∷ "/auth/logout" ∷ []

unfoldable pub is_exempt : (with_query : String → String) → String → Bool
is_exempt with_query url =
    any (λ p. str_eq url p || starts_with url (with_query p)) csrf_exempt_paths

-- `getCSRFToken` and `setCSRFToken` of a storage that works.
abbrev pub set_csrf_token : Option String → Client → Client
set_csrf_token token c = record c { csrf_token = if has_text token then token else none }

pub data CsrfEnd : Type 0 where
  obtained : Option String → CsrfEnd
  failed : CsrfEnd

keep_fetched : Client → Option String → CsrfEnd × Client
keep_fetched c token =
    if has_text token then (obtained token, set_csrf_token token c) else (obtained none, c)

-- `ensureCSRFToken`: the stored token, or one fetch.
unfoldable pub ensure_csrf_token : Env → Client → CsrfEnd × Client
unfolding keep_fetched
ensure_csrf_token env c =
    if has_text c.csrf_token
    then (obtained c.csrf_token, c)
    else (elim (env.fetch_csrf c) [ none ↦ (failed, c) | some token ↦ keep_fetched c token ])

pub data Refusal : Type 0 where
  -- 403 CSRF_TOKEN_MISSING
  csrf_token_missing : Refusal
  -- 503 CSRF_TOKEN_FETCH_FAILED
  csrf_token_fetch_failed : Refusal

pub data Prepared : Type 0 where
  ready : Request → Prepared
  refused : Refusal → Prepared

with_csrf : Request → CsrfEnd → Prepared
with_csrf req failed = refused csrf_token_fetch_failed
with_csrf req (obtained token) =
    if has_text token
    then ready (record req { csrf_header = token })
    else refused csrf_token_missing

-- The headers that need no wait. A resent request keeps what it has where there is nothing new.
abbrev with_headers : Option String → Client → Request → Request
with_headers current c req = record req {
  authorization = if has_text current then current else req.authorization;
  tenant_header = if has_slug c.tenant_slug then c.tenant_slug else req.tenant_header;
}

-- The interceptor up to its first wait.
unfoldable pub begin_request : Env → Client → Start
begin_request env c = refresh_if_needed env (sync_token c).access_token (sync_token c)

-- `with_query p` is `p + '?'`.
module _ (with_query : String → String) where
  -- The whole interceptor; `w` is the end of its wait, where there is one.
  unfoldable pub on_request : Env → Client → Waited → Request → Prepared × Client
  unfolding begin_request end_wait with_csrf
  on_request env c w req =
      let (current, c') = end_wait (begin_request env c) w in
      let req' = with_headers current c' req in
      if is_state_changing req.method && not (is_exempt with_query req.url)
      then (let (token, c'') = ensure_csrf_token env c' in (with_csrf req' token, c''))
      else (ready req', c')
