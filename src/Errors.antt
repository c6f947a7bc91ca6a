-- ===== src/Errors.antt =====
-- What the front end throws and how it reads it: fe/src/lib/utils/errors.ts,
-- fe/src/lib/utils/errorHandler.ts and the error types, messages and retry test of
-- fe/src/lib/api/apiClient.ts. Statuses are numbers, codes and messages are texts.
pub mod Laws
use Prim.Native.Nat.{ℕ}
use text.Mathlib.Text.{find?}
use rr_net.Prelude.{
  Bool, true, false, not, ◌&&◌, ◌||◌, List, [], ◌∷◌, Option, none, some, String, str_eq, ◌==◌,
  if◌then◌else◌, any, truthy,
}

pub data Method : Type 0 where
  get head options post put patch delete : Method

-- The parts of a response that the client reads; `error`, `message` and `code` are its body's.
pub record Response : Type 0 where
  pub status : ℕ
  pub error : Option String
  pub message : Option String
  pub code : Option String

pub record AxiosError : Type 0 where
  pub message : String
  pub code : Option String
  pub response : Option Response
  pub url : String
  pub method : Option Method

pub record ApiError : Type 0 where
  pub message : String
  pub status_code : Option ℕ
  pub code : Option String
  pub details : Option Response

-- A value that a `catch` may see.
pub data Thrown : Type 0 where
  api_error : ApiError → Thrown
  network_error : String → Thrown
  axios_error : AxiosError → Thrown
  -- Any other `Error`, with its name and message.
  error : String → String → Thrown
  string : String → Thrown
  other : Thrown

-- `error?.response`.
abbrev pub response_of : Thrown → Option Response
response_of (axios_error e) = e.response
response_of _ = none

-- `error?.response?.data?.error`.
abbrev pub response_error : Thrown → Option String
response_error t = elim (response_of t) [ none ↦ none | some r ↦ r.error ]

-- `error?.message`.
abbrev pub message_of : Thrown → Option String
message_of (api_error e) = some e.message
message_of (network_error m) = some m
message_of (axios_error e) = some e.message
message_of (error n m) = some m
message_of (string s) = none
message_of other = none

pub record ErrorInfo : Type 0 where
  pub message : String
  pub status : Option ℕ
  pub details : Option Response

abbrev pub is_object : Thrown → Bool
is_object (string s) = false
is_object other = false
is_object _ = true

abbrev pub unexpected : String
unexpected = "Unexpected error occurred"

abbrev pub or_else : Option String → String → String
or_else none d = d
or_else (some s) d = s

abbrev status_of : Option Response → Option ℕ
status_of none = none
status_of (some r) = some r.status

unfoldable pub to_api_error : Thrown → ErrorInfo
to_api_error t =
    if is_object t
    then record {
      message = or_else (response_error t) (or_else (message_of t) unexpected);
      status = status_of (response_of t);
      details = response_of t;
    }
    else record { message = unexpected; status = none; details = none }

abbrev pub unexpected_retry : String
unexpected_retry = "An unexpected error occurred. Please try again."

-- `getErrorMessage` of errorHandler.ts.
unfoldable pub display_message : Bool → Thrown → String
display_message production (api_error e) = e.message
display_message production (network_error m) = m
display_message production (axios_error e) = if production then unexpected_retry else e.message
display_message production (error n m) = if production then unexpected_retry else m
display_message production (string s) = s
display_message production other = unexpected_retry

abbrev pub member : ℕ → List ℕ → Bool
member n = any (λ k. n == k)

-- `isRetryableError` of errorHandler.ts.
unfoldable pub is_retryable : Thrown → Bool
is_retryable (api_error e) = elim e.status_code [
  | none ↦ false
  | some s ↦ member s (408 ∷ 429 ∷ 500 ∷ 502 ∷ 503 ∷ 504 ∷ [])
]
is_retryable (network_error m) = true
is_retryable _ = false

unfoldable pub error_code : Thrown → Option String
error_code (api_error e) = e.code
error_code (network_error m) = some "NETWORK_ERROR"
error_code (axios_error e) = some "AxiosError"
error_code (error n m) = some n
error_code _ = some "UNKNOWN_ERROR"

pub record Display : Type 0 where
  pub title : String
  pub message : String
  pub action : Option String

abbrev plain : String → String → Display
plain t m = record { title = t; message = m; action = none }

display_status : Option ℕ → String → Display
display_status none m = plain "Error" m
display_status (some s) m =
    if s == 401
    then record {
      title = "Authentication Required";
      message = "Please log in to continue.";
      action = some "Go to Login";
    }
    else (if s == 403
        then plain "Access Denied" "You don't have permission to perform this action."
        else (if s == 404
            then plain "Not Found" "The requested resource was not found."
            else (if s == 429
                then plain "Too Many Requests" "Please wait a moment and try again."
                else (if member s (500 ∷ 502 ∷ 503 ∷ [])
                    then plain "Server Error"
                        "Our servers are experiencing issues. Please try again later."
                    else plain "Error" m))))

unfoldable pub format_for_display : Bool → Thrown → Display
unfolding display_status display_message
format_for_display production (api_error e) = display_status e.status_code e.message
format_for_display production (network_error m) =
    plain "Connection Error" "Please check your internet connection and try again."
format_for_display production t = plain "Error" (display_message production t)

abbrev pub includes : String → String → Bool
includes s t = elim (find? s t) [ none ↦ false | some i ↦ true ]

abbrev pub is_code : Option String → String → Bool
is_code none k = false
is_code (some c) k = str_eq c k

abbrev pub has_text : Option String → Bool
has_text none = false
has_text (some s) = truthy s

default_message : AxiosError → String
default_message e =
    if is_code e.code "ECONNABORTED" || includes e.message "timeout"
    then "Request timeout. Please check your connection and try again."
    else (if is_code e.code "ERR_NETWORK" || elim e.response [ none ↦ true | some r ↦ false ]
        then "Network error. Please check your connection."
        else unexpected_retry)

status_message : AxiosError → ℕ → String
unfolding default_message
status_message e s =
    if s == 400
    then "Invalid request. Please check your input."
    else (if s == 401
        then "You are not authorized. Please log in again."
        else (if s == 403
            then "You don't have permission to perform this action."
            else (if s == 404
                then "The requested resource was not found."
                else (if s == 409
                    then "This resource already exists or conflicts with existing data."
                    else (if s == 422
                        then "Validation failed. Please check your input."
                        else (if s == 429
                            then "Too many requests. Please try again later."
                            else (if s == 500
                                then "Server error. Please try again later."
                                else (if s == 502 || s == 503
                                    then "Service temporarily unavailable. Please try again later."
                                    else (if s == 504
                                        then "Request timeout. Please try again."
                                        else default_message e)))))))))

-- `getErrorMessage` of apiClient.ts.
unfoldable pub client_message : AxiosError → String
unfolding status_message default_message
client_message e = elim e.response [
  | none ↦ default_message e
  | some r ↦
      if has_text r.error
      then or_else r.error ""
      else (if has_text r.message then or_else r.message "" else status_message e r.status)
]

abbrev pub is_state_changing : Option Method → Bool
is_state_changing (some post) = true
is_state_changing (some put) = true
is_state_changing (some patch) = true
is_state_changing (some delete) = true
is_state_changing _ = false

abbrev pub retryable_code : Option String → Bool
retryable_code none = false
retryable_code (some c) = str_eq c "ECONNABORTED" || str_eq c "ETIMEDOUT" || str_eq c "ERR_NETWORK"

-- `isRetryableError` of apiClient.ts.
unfoldable pub is_retryable_request : AxiosError → Bool
is_retryable_request e = elim e.response [
  | none ↦ true
  | some r ↦
      if r.status == 429
      then false
      else (if r.status == 500 && is_state_changing e.method
          then false
          else member r.status (408 ∷ 500 ∷ 502 ∷ 503 ∷ 504 ∷ []) || retryable_code e.code)
]

abbrev coalesce : Option String → Option String → Option String
coalesce none d = d
coalesce (some c) d = some c

abbrev code_of : Option Response → Option String
code_of none = none
code_of (some r) = r.code

-- The end of the response interceptor: the error as the callers see it.
unfoldable pub transform : AxiosError → ApiError
transform e = record {
  message = client_message e;
  status_code = status_of e.response;
  code = coalesce (code_of e.response) e.code;
  details = e.response;
}
