-- ===== src/ApiClient/Csrf.antt =====
-- The CSRF token of fe/src/lib/api/apiClient.ts: `fetchCSRFToken`, and calls of `ensureCSRFToken` that
-- overlap. The queue of the source is left out, as nothing is ever put in it.
pub mod Answers
use rr_net.Prelude.{
  ℕ, suc, ◌+◌, ◌≤◌, ◌≡◌, ◌⊎◌, ap, subst, refl, inl, inr, Bool-cases, Bool, true, false, not, List,
  [], ◌∷◌, ◌++◌, map, length, length-append, Option, none, some, String, arith, if◌then◌else◌,
}
use rr_net.Errors.{has_text}

-- What an endpoint answers: the header, if it is there, or an exception.
pub data Reply : Type 0 where
  header : Option String → Reply
  failed : Reply

abbrev header_token : Reply → Option String
header_token (header t) = if has_text t then t else none
header_token failed = none

-- The answers of /auth/me and, where that is asked, of /clients/stats.
unfoldable pub fetch_csrf_token : Reply → Reply → Option String
fetch_csrf_token (header t) stats = header_token (header t)
fetch_csrf_token failed stats = header_token stats

-- The stored token, whether a fetch is in progress, the calls that wait for it, and the calls that have
-- their token, the last one first.
pub record Csrf : Type 0 where
  pub stored : Option String
  pub in_progress : Bool
  pub waiting : List ℕ
  pub answered : List (ℕ × Option String)

unfoldable pub ensure : Csrf → (call : ℕ) → Csrf
ensure c call =
    if has_text c.stored
    then record c { answered = (call, c.stored) ∷ c.answered }
    else record c { in_progress = true; waiting = c.waiting ++ call ∷ [] }

-- The call sends the request itself.
abbrev pub sends : Csrf → Bool
sends c = if has_text c.stored then false else not c.in_progress

-- The fetch ends: every call that waits has its token.
unfoldable pub settle : Csrf → Option String → Csrf
settle c token =
    if c.in_progress
    then record {
      stored = if has_text token then token else c.stored;
      in_progress = false;
      waiting = [];
      answered = map (λ i. (i, token)) c.waiting ++ c.answered;
    }
    else c

-- `setCSRFToken`, as the responses and a logout call it.
unfoldable pub set_stored : Csrf → Option String → Csrf
set_stored c token = record c { stored = if has_text token then token else none }

pub data Event : Type 0 where
  calls : ℕ → Event
  ends : Reply → Reply → Event
  stores : Option String → Event

unfoldable pub perform : Csrf → Event → Csrf
unfolding fetch_csrf_token
perform c (calls i) = ensure c i
perform c (ends me stats) = settle c (fetch_csrf_token me stats)
perform c (stores t) = set_stored c t

unfoldable pub run : Csrf → List Event → Csrf
run c [] = c
run c (e ∷ es) = run (perform c e) es

-- How many requests the events send.
unfoldable pub requests : Csrf → List Event → ℕ
requests c [] = 0
requests c (calls i ∷ es) =
    let rest = requests (perform c (calls i)) es in if sends c then suc rest else rest
requests c (e ∷ es) = requests (perform c e) es

abbrev pub call_count : List Event → ℕ
call_count [] = 0
call_count (calls i ∷ es) = suc (call_count es)
call_count (e ∷ es) = call_count es

abbrev pub end_count : List Event → ℕ
end_count [] = 0
end_count (ends me stats ∷ es) = suc (end_count es)
end_count (e ∷ es) = end_count es

abbrev pub fresh : Option String → Csrf
fresh stored = record { stored = stored; in_progress = false; waiting = []; answered = [] }
