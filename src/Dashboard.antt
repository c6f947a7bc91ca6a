-- ===== src/Dashboard.antt =====
-- fe/src/stores/dashboardStore.ts. A fetch is a race between the backend and a timer; `D` is the type of
-- the data and `now` the date.
use rr_net.Prelude.{
  ℕ, suc, ◌==◌, ◌≡◌, ◌++◌, Bool, true, false, ◌&&◌, List, [], ◌∷◌, Option, none, some, String,
  truthy, if◌then◌else◌,
}
use rr_net.Types.{Answer, ok, threw}
use rr_net.Errors.{
  Thrown, error, message_of, response_error, includes, is_code, api_error, axios_error,
}

-- `started` counts the fetches; the race of the last one is undecided while `loading`.
pub record DashboardState (D : Type 0) : Type 0 where
  pub data_shown : Option D
  pub loading : Bool
  pub error_shown : Option String
  pub last_updated : Option String
  pub started : ℕ

-- What the timer of a fetch rejects with.
abbrev pub timeout_error : Thrown
timeout_error =
    error "Error" "Request timeout: Dashboard data took too long to load. Please try again."

abbrev or_text : Option String → String → String
or_text none d = d
or_text (some s) d = if truthy s then s else d

abbrev is_timeout : Option String → Bool
is_timeout none = false
is_timeout (some m) = includes m "timeout"

-- `error.code === 'DASHBOARD_UNAUTHORIZED'`.
abbrev is_unauthorized : Thrown → Bool
is_unauthorized (api_error e) = is_code e.code "DASHBOARD_UNAUTHORIZED"
is_unauthorized (axios_error e) = is_code e.code "DASHBOARD_UNAUTHORIZED"
is_unauthorized t = false

unfoldable pub error_message : Thrown → String
error_message t =
    let fallback : String = "Failed to load dashboard data" in
    if is_timeout (message_of t)
    then or_text (message_of t) fallback
    else if is_unauthorized t
    then "Dashboard data unavailable (auth not ready). Will retry automatically."
    else or_text (response_error t) (or_text (message_of t) fallback)

pub data Event (D : Type 0) : Type 0 where
  fetches : Event D
  answers : (fetch : ℕ) → Answer D → (now : String) → Event D
  times_out : (fetch : ℕ) → Event D

module _ {D : Type 0} where
  abbrev pub initial : DashboardState D
  initial = record {
    data_shown = none;
    loading = false;
    error_shown = none;
    last_updated = none;
    started = 0;
  }

  unfoldable pub start_fetch : DashboardState D → DashboardState D
  start_fetch s =
      if s.loading
      then s
      else record s { loading = true; error_shown = none; started = suc s.started }

  -- The end of the race; an error leaves the data.
  unfoldable pub end_fetch : DashboardState D → Answer D → (now : String) → DashboardState D
  end_fetch s (ok d) now = record s {
    data_shown = some d;
    loading = false;
    last_updated = some now;
    error_shown = none;
  }
  end_fetch s (threw t) now = record s { error_shown = some (error_message t); loading = false }

  -- Whether the race of the fetch is undecided.
  abbrev pub is_open : DashboardState D → (fetch : ℕ) → Bool
  is_open s fetch = s.loading && fetch == s.started

  unfoldable pub perform : DashboardState D → Event D → DashboardState D
  unfolding start_fetch end_fetch
  perform s fetches = start_fetch s
  perform s (answers fetch a now) = if is_open s fetch then end_fetch s a now else s
  perform s (times_out fetch) = if is_open s fetch then end_fetch s (threw timeout_error) "" else s

  unfoldable pub run : DashboardState D → List (Event D) → DashboardState D
  run s [] = s
  run s (e ∷ es) = run (perform s e) es

  -- The answer, with its date, is among the events, and comes while its fetch is the last one started
  -- and undecided.
  abbrev pub IsAccepted : DashboardState D → List (Event D) → D → (now : String) → Type 0
  IsAccepted s es d now =
      (before after : List (Event D)) × (k : ℕ) × (es ≡ before ++ answers k (ok d) now ∷ after)
      × ((run s before).loading ≡ true)
      × (k ≡ (run s before).started)

  abbrev pub Shows : DashboardState D → D → (now : String) → Type 0
  Shows s d now = (s.data_shown ≡ some d) × (s.last_updated ≡ some now)

  -- How many answers and timeouts there are.
  abbrev pub end_count : List (Event D) → ℕ
  end_count [] = 0
  end_count (fetches ∷ es) = end_count es
  end_count (answers k a now ∷ es) = suc (end_count es)
  end_count (times_out k ∷ es) = suc (end_count es)
