-- ===== src/Clients.antt =====
-- fe/src/stores/clientStore.ts. A fetch is two steps, as other actions may run while it waits for the
-- backend; the loaded clients are of any type `C`.
pub mod Page
pub mod Pagination
pub mod Pricing
pub mod Form
pub mod Service
use rr_net.Prelude.{
  ℕ, suc, ◌+◌, ◌-◌, ◌/◌, ◌==◌, Bool, true, false, List, [], Option, none, some, String, truthy,
  if◌then◌else◌,
}
use rr_net.Types.{Answer, ok, threw, or_else}
use rr_net.Errors.{Thrown, response_error}

pub record ClientFilters : Type 0 where
  pub search : Option String
  pub status : Option String
  pub category : Option String
  pub group_id : Option String
  pub page : Option ℕ
  pub page_size : Option ℕ

abbrev pub no_filters : ClientFilters
no_filters = record {
  search = none;
  status = none;
  category = none;
  group_id = none;
  page = none;
  page_size = none;
}

-- A backend may leave out what the interface declares, as the store's `||` and `??` expect.
pub record ClientListResponse (C : Type 0) : Type 0 where
  pub items : Option (List C)
  pub total : Option ℕ
  pub page : Option ℕ
  pub page_size : Option ℕ
  pub total_pages : Option ℕ

pub record ClientState (C : Type 0) : Type 0 where
  pub clients : List C
  pub selected_client : Option C
  pub total : ℕ
  pub page : ℕ
  pub page_size : ℕ
  pub total_pages : ℕ
  pub filters : ClientFilters
  pub loading : Bool
  pub error : Option String

abbrev pub initial_state : {C : Type 0} → ClientState C
initial_state = record {
  clients = [];
  selected_client = none;
  total = 0;
  page = 1;
  page_size = 10;
  total_pages = 0;
  filters = no_filters;
  loading = false;
  error = none;
}

-- `x || d` on a number that may be missing.
abbrev pub number_or : Option ℕ → ℕ → ℕ
number_or none d = d
number_or (some n) d = if n == 0 then d else n

abbrev text_error : Thrown → (fallback : String) → String
text_error t fallback = elim (response_error t) [
  | none ↦ fallback
  | some e ↦ if truthy e then e else fallback
]

-- `Math.ceil(total / size)`, for a size that is not 0.
abbrev pub ceil_div : ℕ → ℕ → ℕ
ceil_div total size = (total + (size - 1)) / size

abbrev pages_from : Option ℕ → Option ℕ → ℕ
pages_from none size = 0
pages_from (some total) none = 0
pages_from (some total) (some size) =
    if total == 0 then 0 else if size == 0 then 0 else ceil_div total size

module _ {C : Type 0} where
  abbrev pub request_filters : ClientState C → ClientFilters → ClientFilters
  request_filters s f = record f {
    page = some (number_or f.page s.page);
    page_size = some (number_or f.page_size s.page_size);
  }

  -- `none` when the store is loading; otherwise the request that is sent.
  unfoldable pub start_fetch_clients :
      ClientState C → Option ClientFilters → Option (ClientState C × ClientFilters)
  start_fetch_clients s filters =
      if s.loading
      then none
      else some
          (record s { loading = true; error = none }, request_filters s (or_else filters s.filters))

  abbrev pub calculated_total_pages : ClientListResponse C → ℕ
  calculated_total_pages r = or_else r.total_pages (pages_from r.total r.page_size)

  -- `filters` is the argument that the fetch was called with.
  unfoldable pub end_fetch_clients :
      ClientState C → Option ClientFilters → Answer (ClientListResponse C) → ClientState C
  end_fetch_clients s filters (ok r) = record s {
    clients = or_else r.items [];
    total = or_else r.total 0;
    page = number_or r.page 1;
    page_size = number_or r.page_size 10;
    total_pages = calculated_total_pages r;
    loading = false;
    filters = or_else filters s.filters;
  }
  end_fetch_clients s filters (threw t) = record s {
    error = some (text_error t "Failed to load clients");
    loading = false;
  }

  unfoldable pub start_fetch_client : ClientState C → ClientState C
  start_fetch_client s = record s { loading = true; error = none }

  unfoldable pub end_fetch_client : ClientState C → Answer C → ClientState C
  end_fetch_client s (ok c) = record s { selected_client = some c; loading = false }
  end_fetch_client s (threw t) = record s {
    error = some (text_error t "Failed to load client");
    loading = false;
  }

  unfoldable pub set_filters : ClientState C → ClientFilters → ClientState C
  set_filters s f = record s { filters = f; page = 1 }

  unfoldable pub set_page : ClientState C → ℕ → ClientState C
  set_page s page = record s { page = page }

  abbrev pub clear_selected_client : ClientState C → ClientState C
  clear_selected_client s = record s { selected_client = none }

  abbrev pub reset : ClientState C → ClientState C
  reset s = initial_state
