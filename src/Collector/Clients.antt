-- ===== src/Collector/Clients.antt =====
-- fe/src/stores/collectorStore.ts: what is known of each client, and partial payments.
pub mod Laws
use rr_net.Prelude.{
  ℕ, Bool, true, false, List, [], ◌∷◌, Option, none, some, String, str_eq, if◌then◌else◌, filter,
  update, truthy,
}
use rr_net.Errors.{to_api_error}
use rr_net.Types.{Answer, ok, threw, Payment, RecordPaymentRequest, by_collector, or_else}
use rr_net.Collector.{CollectorState, begin, fail}

unfoldable pub mark_client_paid_full : String → CollectorState → CollectorState
mark_client_paid_full id s =
    if s.paid_full_clients id
    then record s { paid_full_clients = update s.paid_full_clients id false }
    else record s {
      paid_full_clients = update s.paid_full_clients id true;
      not_home_clients = update s.not_home_clients id false;
      partial_payments = update s.partial_payments id none;
    }

unfoldable pub mark_client_not_home : String → CollectorState → CollectorState
mark_client_not_home id s =
    if s.not_home_clients id
    then record s { not_home_clients = update s.not_home_clients id false }
    else record s {
      not_home_clients = update s.not_home_clients id true;
      paid_full_clients = update s.paid_full_clients id false;
      partial_payments = update s.partial_payments id none;
    }

unfoldable pub remove_partial_payment : String → CollectorState → CollectorState
remove_partial_payment id s = record s { partial_payments = update s.partial_payments id none }

abbrev or_now : Option String → String → String
or_now none now = now
or_now (some d) now = if truthy d then d else now

-- The request that `addPartialPayment` sends.
pub partial_payment_request :
    (now : String) → String → ℕ → String → Option String → RecordPaymentRequest
partial_payment_request now invoice_id amount collector_id payment_date = record {
  invoice_id = invoice_id;
  amount = amount;
  method = by_collector;
  reference = none;
  collector_id = some collector_id;
  notes = some "Partial payment collected by collector";
  received_at = some (or_now payment_date now);
}

-- The answer is that of `recordPayment`.
unfoldable pub add_partial_payment :
    CollectorState → String → ℕ → Answer Payment → CollectorState × Answer Payment
add_partial_payment s id amount (ok p) = (
  record (begin s) {
    partial_payments = update s.partial_payments id (some amount);
    payments = p ∷ s.payments;
    loading = false;
  },
  ok p,
)
add_partial_payment s id amount (threw t) = (fail (to_api_error t).message (begin s), threw t)

unfoldable pub is_client_paid_full : CollectorState → String → Bool
is_client_paid_full s id = s.paid_full_clients id

unfoldable pub is_client_not_home : CollectorState → String → Bool
is_client_not_home s id = s.not_home_clients id

unfoldable pub get_client_partial_amount : CollectorState → String → ℕ
get_client_partial_amount s id = or_else (s.partial_payments id) 0

unfoldable pub get_client_payments : CollectorState → String → List Payment
get_client_payments s id = filter (λ p. str_eq p.client_id id) s.payments
