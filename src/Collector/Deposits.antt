-- ===== src/Collector/Deposits.antt =====
-- fe/src/stores/collectorStore.ts: deposits, the day's collection and the history by day. The day
-- of a payment, the moment of a text and the bounds of a month come from `Date`: they are
-- parameters, with `none` for an invalid date. `before` is the order of `localeCompare`.
pub mod History
use text.Mathlib.Text.{starts_with}
use rr_net.Prelude.{
  ℕ, ◌+◌, Bool, true, false, not, ◌&&◌, List, [], ◌∷◌, ◌++◌, map, Option, none, some, String,
  str_eq, leb, if◌then◌else◌, filter, any, length,
}
use rr_net.Errors.{to_api_error}
use rr_net.Types.{
  Answer, ok, threw, Payment, PaymentMethod, PaymentListResponse, by_collector, or_else,
}
use rr_net.Collector.{CollectorState, Deposit, DepositDay, begin, fail}

abbrev pub sum : List ℕ → ℕ
sum [] = 0
sum (n ∷ ns) = n + sum ns

abbrev pub amounts : List Payment → ℕ
amounts ps = sum (map (λ p. p.amount) ps)

unfoldable pub submit_deposit :
    (deposit_id now : String)
    → CollectorState
    → ℕ
    → (client_ids payment_ids : List String) → CollectorState
submit_deposit deposit_id now s amount client_ids payment_ids = record (begin s) {
  today_collection = s.today_collection + amount;
  today_deposits =
      record {
        id = deposit_id;
        amount = amount;
        client_count = length client_ids;
        deposited_at = now;
      }
      ∷ s.today_deposits;
  loading = false;
}

abbrev pub is_by_collector : PaymentMethod → Bool
is_by_collector by_collector = true
is_by_collector _ = false

abbrev pub is_of_day : String → Payment → Bool
is_of_day today p = starts_with p.received_at today && is_by_collector p.method

unfoldable pub fetch_today_collection : (today : String) → CollectorState → CollectorState
fetch_today_collection today s = record s {
  today_collection = amounts (filter (is_of_day today) s.payments);
}

abbrev within : (String → Option ℕ) → ℕ → ℕ → Payment → Bool
within moment first last p = elim (moment p.received_at) [
  | none ↦ false
  | some t ↦ leb first t && leb t last
]

-- `month` gives the first and the last moment of the month of a date.
unfoldable pub fetch_payments_for_date :
    (String → Option ℕ) → (ℕ → ℕ × ℕ) → CollectorState → ℕ → Answer (List Payment) → CollectorState
fetch_payments_for_date moment month s date (ok ps) = record (begin s) {
  payments = filter (within moment (month date).0 (month date).1) ps;
  loading = false;
}
fetch_payments_for_date moment month s date (threw t) =
    record (fail (to_api_error t).message (begin s)) { payments = [] }

-- `paymentsByDate`, in the order of insertion.
abbrev pub Groups : Type 0
Groups = List (String × List Payment)

pub add_to_group : String → Payment → Groups → Groups
add_to_group d p [] = (d, p ∷ []) ∷ []
add_to_group d p ((e, ps) ∷ gs) =
    if str_eq e d then (e, ps ++ p ∷ []) ∷ gs else (e, ps) ∷ add_to_group d p gs

-- `none` is the `RangeError` of an invalid date.
pub group_by_day : (Payment → Option String) → Groups → List Payment → Option Groups
unfolding add_to_group
group_by_day day gs [] = some gs
group_by_day day gs (p ∷ ps) = elim (day p) [
  | none ↦ none
  | some d ↦ group_by_day day (add_to_group d p gs) ps
]

-- The size of the `Set` of the clients.
distinct : List String → List String
distinct [] = []
distinct (x ∷ xs) = if any (λ y. str_eq x y) xs then distinct xs else x ∷ distinct xs

pub day_of_group : String × List Payment → DepositDay
unfolding distinct
day_of_group (d, ps) = record {
  date = d;
  amount = amounts ps;
  client_count = length (distinct (map (λ p. p.client_id) ps));
  payments = ps;
}

-- A stable sort, the latest day first.
pub insert_day : (String → String → Bool) → DepositDay → List DepositDay → List DepositDay
insert_day before d [] = d ∷ []
insert_day before d (e ∷ es) =
    if before d.date e.date then e ∷ insert_day before d es else d ∷ e ∷ es

pub sort_days : (String → String → Bool) → List DepositDay → List DepositDay
unfolding insert_day
sort_days before [] = []
sort_days before (d ∷ ds) = insert_day before d (sort_days before ds)

abbrev invalid_time : String
invalid_time = "Invalid time value"

unfoldable pub fetch_deposit_history :
    (Payment → Option String)
    → (String → String → Bool)
    → CollectorState
    → Answer (List Payment)
    → CollectorState
unfolding group_by_day day_of_group sort_days
fetch_deposit_history day before s (ok ps) = elim (group_by_day day [] ps) [
  | none ↦ record (fail invalid_time (begin s)) { deposit_history = [] }
  | some gs ↦ record (begin s) {
    deposit_history = sort_days before (map day_of_group gs);
    loading = false;
  }
]
fetch_deposit_history day before s (threw t) = record (fail (to_api_error t).message (begin s)) {
  deposit_history = [];
}
