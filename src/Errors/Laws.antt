-- ===== src/Errors/Laws.antt =====
-- How the error helpers agree with one another, and where they do not.
use rr_net.Prelude.{◌≡◌, ◌≢◌, refl, ◌⊎◌, ◌↔◌, Bool, true, false, none, some, arith, ◌||◌, ◌==◌}
use rr_net.Errors.{
  Thrown, api_error, network_error, transform, retryable_code, ApiError, AxiosError, Response,
  is_retryable, is_retryable_request, is_state_changing, format_for_display,
}

-- A request is resent after a server's error only if it is one that repeats safely or is not a
-- plain 500, and never after 429.
pub is_retryable_request_lem :
    (e : AxiosError) (r : Response)
    → e.response ≡ some r
    → is_retryable_request e ≡ true
    → (r.status ≢ 429) × ((r.status ≢ 500) ⊎ (is_state_changing e.method ≡ false))
unfolding is_retryable_request
is_retryable_request_lem e r h t = ground arith

-- For a request that repeats safely and an answer from the server, the error that the interceptor
-- passes on counts as retryable to the rest of the program exactly when the interceptor itself
-- would retry it, or when the status is 429.
pub is_retryable-transform :
    (e : AxiosError) (r : Response)
    → e.response ≡ some r
    → retryable_code e.code ≡ false
    → is_state_changing e.method ≡ false
    → is_retryable (api_error (transform e)) ≡ (is_retryable_request e || (r.status == 429))
unfolding is_retryable is_retryable_request transform
is_retryable-transform e r h c safe = ground arith

-- Whatever is thrown, the display helper gives a title and a message; an `ApiError` is told to log
-- in exactly when its status is 401.
pub format_for_display-login :
    (production : Bool) (t : Thrown)
    → ((format_for_display production t).action ≢ none)
      ↔ ((e : ApiError) × (t ≡ api_error e) × (e.status_code ≡ some 401))
unfolding format_for_display
format_for_display-login production (api_error e) =
    (λ h. (e, refl, ground arith), λ x. ground arith)
format_for_display-login production (network_error m) = (λ h. absurd (h refl), λ (e, q, k). cc)
format_for_display-login production _ = (λ h. absurd (h refl), λ (e, q, k). cc)
