-- ===== src/ApiClient/Requests.antt =====
-- What leaves the client: the request interceptor.
use rr_net.Prelude.{
  ℕ, ◌+◌, ◌<◌, ◌≡◌, refl, ◌↔◌, inl, inr, Bool, true, not, ◌&&◌, Option, none, some, String,
  Bool-cases, Option-cases, arith,
}
use rr_net.Errors.{is_state_changing, has_text}
use rr_net.ApiClient.{
  Client, Request, Env, is_token_expiring_soon, is_exempt, ensure_csrf_token, Prepared, ready,
  refused, on_request, begin_request, end_wait, Waited, with_csrf, with_headers, keep_fetched,
}

-- A token is refreshed ahead of time exactly while more than nothing and less than two minutes of
-- its life is left; a token with no readable expiry never is.
pub is_token_expiring_soon_iff :
    (expiration : Option ℕ) (now : ℕ)
    → (is_token_expiring_soon expiration now ≡ true)
      ↔ ((exp : ℕ) × (expiration ≡ some exp) × (now < exp) × (exp < now + 120_000))
unfolding is_token_expiring_soon
is_token_expiring_soon_iff none now = (λ h. cc, λ (e, q, x, y). cc)
is_token_expiring_soon_iff (some exp) now =
    (λ h. (exp, refl, ground arith, ground arith), λ x. ground arith)

abbrev pub needs_csrf : (String → String) → Request → Bool
needs_csrf with_query req = is_state_changing req.method && not (is_exempt with_query req.url)

-- A refusal, or a request with a CSRF token that is also the stored one.
abbrev pub IsGuarded : Prepared → Client → Type 0
IsGuarded (refused x) c = Unit
IsGuarded (ready sent) c = (has_text sent.csrf_header ≡ true) × (sent.csrf_header ≡ c.csrf_token)

keep_fetched-IsGuarded :
    (c : Client) (req : Request) (token : Option String)
    → let (end, c') = keep_fetched c token in IsGuarded (with_csrf req end) c'
unfolding keep_fetched with_csrf
keep_fetched-IsGuarded c req token = elim (Bool-cases (has_text token)) [
  | inl good ↦ rw (good, keep_fetched) (rw (good, with_csrf) (good, refl))
  | inr bad ↦ rw (bad, keep_fetched) tt
]

ensure_csrf_token-IsGuarded :
    (env : Env) (c : Client) (req : Request)
    → let (token, c') = ensure_csrf_token env c in IsGuarded (with_csrf req token) c'
unfolding ensure_csrf_token with_csrf
ensure_csrf_token-IsGuarded env c req = elim (Bool-cases (has_text c.csrf_token)) [
  | inl stored ↦ rw (stored, ensure_csrf_token) (rw (stored, with_csrf) (stored, refl))
  | inr absent ↦ elim (Option-cases (env.fetch_csrf c)) [
    | inl threw ↦ rw (absent, ensure_csrf_token) (rw (threw, ensure_csrf_token) tt)
    | inr (token, given) ↦
        rw (absent, ensure_csrf_token)
          (rw (given, ensure_csrf_token) (keep_fetched-IsGuarded c req token))
  ]
]

module _ (with_query : String → String) where
  -- A request that changes state and is not exempt leaves with a CSRF token, which is then also
  -- the stored one, or is refused.
  pub on_request-IsGuarded :
      (env : Env) (c : Client) (w : Waited) (req : Request)
      → needs_csrf with_query req ≡ true
      → IsGuarded (on_request with_query env c w req).0 (on_request with_query env c w req).1
  unfolding on_request
  on_request-IsGuarded env c w req h =
      rw (h, on_request)
        (ensure_csrf_token-IsGuarded env start.1 (with_headers start.0 start.1 req))
    where
      start : Option String × Client
      start = end_wait (begin_request env c) w
