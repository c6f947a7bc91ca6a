-- ===== src/Tests/Stores.antt =====
-- The stores of fe/src/stores/ with one invoice and one assignment.
use rr_net.Prelude.{
  ℕ, ◌≡◌, ◌↔◌, refl, Bool, true, false, not, ◌&&◌, List, [], ◌∷◌, Option, none, some, String, map,
  str_eq, arith,
}
use rr_net.Errors.{Thrown, string}
use rr_net.Types.{
  Answer, ok, threw, pending, cash, visit_success, Invoice, Payment, InvoiceListResponse,
  RecordPaymentRequest, CollectorAssignment,
}
use rr_net.Billing
use rr_net.Billing.{BillingState, fetch_invoices, record_payment, cancel_invoice, is_selected}
use rr_net.Billing.Settles as Settles
use rr_net.Billing.Settles.{fetch_invoices-run}
use rr_net.Billing.Payments.{record_payment-recorded}
use rr_net.Billing.Matrix as Matrix
use rr_net.Collector
use rr_net.Collector.{CollectorState}
use rr_net.Collector.Visits.History as History
use rr_net.Collector.Assignments.{fetch_assignments, lookup_last}
use rr_net.Collector.Assignments.Laws.{fetch_assignments-keeps, Found}
use rr_net.Collector.Deposits.{fetch_deposit_history, sum, amounts}
use rr_net.Collector.Deposits.History.{fetch_deposit_history-total}

abbrev bill : Invoice
bill = record {
  id = "i1";
  tenant_id = "t";
  client_id = "c1";
  client_name = none;
  client_phone = none;
  client_address = none;
  client_group_name = none;
  invoice_number = "INV-1";
  period_start = "2025-01-01";
  period_end = "2025-01-31";
  due_date = "2025-02-10";
  subtotal = 100_000;
  tax_amount = 0;
  discount_amount = 0;
  total_amount = 100_000;
  paid_amount = 0;
  currency = "IDR";
  status = pending;
  notes = none;
  items = none;
  created_at = "2025-01-01";
  updated_at = "2025-01-01";
  paid_at = none;
}

abbrev payment : Payment
payment = record {
  id = "p1";
  tenant_id = "t";
  invoice_id = "i1";
  client_id = "c1";
  client_name = none;
  amount = 100_000;
  currency = "IDR";
  method = cash;
  reference = none;
  collector_id = none;
  notes = none;
  received_at = "2025-02-01";
  created_at = "2025-02-01";
  created_by_user_id = "u1";
}

abbrev paying : RecordPaymentRequest
paying = record {
  invoice_id = "i1";
  amount = 100_000;
  method = cash;
  reference = none;
  collector_id = none;
  notes = none;
  received_at = none;
}

abbrev listing : InvoiceListResponse
listing = record { items = some (bill ∷ []); total = some 1; page = 1 }

abbrev offline : Thrown
offline = string "offline"

abbrev billing : BillingState
billing = record rr_net.Billing.initial { invoices = bill ∷ []; invoice = some bill }

fetch_invoices-run_example :
    let s =
      fetch_invoices
        (Settles.run rr_net.Billing.initial
          (Settles.fetches_invoices (threw offline) ∷ Settles.creates (ok bill) ∷ []))
        (ok listing) in
    (s.invoices ≡ bill ∷ []) × (s.loading ≡ false) × (s.error ≡ none)
fetch_invoices-run_example =
    fetch_invoices-run (Settles.fetches_invoices (threw offline) ∷ Settles.creates (ok bill) ∷ [])
      listing

abbrev failed_fetch : Answer Invoice
failed_fetch = threw offline

record_payment-recorded_example :
    let (s', end) = record_payment billing paying (ok payment) failed_fetch in
    (s'.payments ≡ payment ∷ billing.payments)
    × (s'.loading ≡ false)
    × (((t : Thrown) × (end ≡ threw t))
        ↔ ((is_selected billing.invoice "i1" ≡ true) × ((t : Thrown) × (failed_fetch ≡ threw t))))
record_payment-recorded_example = record_payment-recorded billing paying payment failed_fetch

abbrev job : CollectorAssignment
job = record {
  invoice_id = "i1";
  invoice = bill;
  workflow_status = visit_success;
  assigned_at = none;
  visit_notes = some "met";
  visit_photo_url = none;
  deposit_proof_url = none;
  deposit_submitted_at = none;
  confirmed_at = none;
  local_state = none;
}

abbrev idle : CollectorState
idle = rr_net.Collector.initial 5

abbrev working : CollectorState
working = record idle { assignments = job ∷ [] }

abbrev url : ℕ → String
url file = "blob:1"

abbrev visits : List History.Visit
visits = History.succeeds "i1" none none ∷ History.reports "i1" 3 ∷ []

fetch_assignments-keeps_example :
    Found "i1" job
      (fetch_assignments "now" working billing (ok listing) (threw offline)).0.assignments
unfolding lookup_last
fetch_assignments-keeps_example =
    fetch_assignments-keeps "now" working billing (ok listing) (threw offline) "i1" job refl refl

abbrev day : Payment → Option String
day p = some p.received_at

abbrev never : String → String → Bool
never a b = false

fetch_deposit_history-total_example :
    sum (
      map
        (λ d. d.amount)
        (fetch_deposit_history day never idle (ok (payment ∷ payment ∷ []))).deposit_history)
    ≡ amounts (payment ∷ payment ∷ [])
fetch_deposit_history-total_example =
    fetch_deposit_history-total day never idle (payment ∷ payment ∷ []) refl

-- One day is before all others.
abbrev earlier : String → String → Bool
earlier a b = str_eq a "2025-02-01" && not (str_eq b "2025-02-01")

earlier_asym : (a b : String) → earlier a b ≡ true → earlier b a ≡ false
earlier_asym a b h = ground arith

abbrev all_of : ℕ → Matrix.Query
all_of year = record { year = year; q = ""; group_id = ""; status = "" }

abbrev month : ℕ → Matrix.PaymentMatrixResponse ℕ
month year = record { items = some (year ∷ []); available_years = none; year = some year }

-- The answer for 2024 comes last, but 2023 was chosen after it.
abbrev late : List (Matrix.Event ℕ)
late =
    Matrix.changes (all_of 2024)
    ∷ Matrix.changes (all_of 2023)
    ∷ Matrix.answers 3 (ok (month 2023))
    ∷ Matrix.answers 2 (ok (month 2024))
    ∷ []
