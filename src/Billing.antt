-- ===== src/Billing.antt =====
-- fe/src/stores/billingStore.ts. An action whose call is answered by `a` is a function of the state
-- and `a`: what it sets before the call, then what it sets with the answer. Beside the state it
-- gives its result, an exception included.
pub mod Settles
pub mod Matrix
pub mod Payments
use rr_net.Prelude.{
  ℕ, Bool, true, false, List, [], ◌∷◌, map, Option, none, some, String, str_eq, if◌then◌else◌,
}
use rr_net.Errors.{Thrown, to_api_error}
use rr_net.Types.{
  Answer, ok, threw, Invoice, InvoiceListResponse, Payment, PaymentListResponse, BillingSummary,
  RecordPaymentRequest, cancelled, or_else, or_first,
}

pub record Pagination : Type 0 where
  pub page : ℕ
  pub page_size : ℕ
  pub total : ℕ

pub record InvoiceFilters : Type 0 where
  pub client_id : Option String
  pub client_name : Option String
  pub phone : Option String
  pub address : Option String
  pub group_id : Option String
  pub status : Option String

pub record PaymentFilters : Type 0 where
  pub client_id : Option String
  pub method : Option String

-- A partial pagination, as the setters take it.
pub record PaginationUpdate : Type 0 where
  pub page : Option ℕ
  pub page_size : Option ℕ
  pub total : Option ℕ

pub record BillingState : Type 0 where
  pub invoices : List Invoice
  pub invoice : Option Invoice
  pub overdue_invoices : List Invoice
  pub payments : List Payment
  pub payment : Option Payment
  pub summary : Option BillingSummary
  pub loading : Bool
  pub error : Option String
  pub invoice_pagination : Pagination
  pub payment_pagination : Pagination
  pub invoice_filters : InvoiceFilters
  pub payment_filters : PaymentFilters

abbrev first_page : Pagination
first_page = record { page = 1; page_size = 20; total = 0 }

abbrev pub no_filters : InvoiceFilters
no_filters = record {
  client_id = none;
  client_name = none;
  phone = none;
  address = none;
  group_id = none;
  status = none;
}

unfoldable pub initial : BillingState
initial = record {
  invoices = [];
  invoice = none;
  overdue_invoices = [];
  payments = [];
  payment = none;
  summary = none;
  loading = false;
  error = none;
  invoice_pagination = first_page;
  payment_pagination = first_page;
  invoice_filters = no_filters;
  payment_filters = record { client_id = none; method = none };
}

-- `set({ loading: true, error: null })`.
abbrev pub begin : BillingState → BillingState
begin s = record s { loading = true; error = none }

-- `set({ error: toApiError(err).message, loading: false })`.
abbrev pub fail : Thrown → BillingState → BillingState
fail t s = record s { error = some (to_api_error t).message; loading = false }

unfoldable pub fetch_invoices : BillingState → Answer InvoiceListResponse → BillingState
fetch_invoices s a = if s.loading then s else (elim a [
  | ok r ↦ record (begin s) {
    invoices = or_else r.items [];
    invoice_pagination = record s.invoice_pagination { total = or_else r.total 0 };
    loading = false;
  }
  | threw t ↦ record (fail t (begin s)) { invoices = [] }
])

unfoldable pub fetch_invoice : BillingState → Answer Invoice → BillingState × Answer (Unit {0})
fetch_invoice s (ok i) = (record (begin s) { invoice = some i; loading = false }, ok tt)
fetch_invoice s (threw t) = (fail t (begin s), threw t)

-- `createInvoice` and `generateMonthlyInvoice`, which do the same with the invoice that is made.
unfoldable pub create_invoice : BillingState → Answer Invoice → BillingState × Answer Invoice
create_invoice s (ok i) = (record (begin s) { invoices = i ∷ s.invoices; loading = false }, ok i)
create_invoice s (threw t) = (fail t (begin s), threw t)

unfoldable pub generate_monthly_invoice :
    BillingState → Answer Invoice → BillingState × Answer Invoice
generate_monthly_invoice s (ok i) =
    (record (begin s) { invoices = i ∷ s.invoices; loading = false }, ok i)
generate_monthly_invoice s (threw t) = (fail t (begin s), threw t)

abbrev cancel : String → Invoice → Invoice
cancel id i = if str_eq i.id id then record i { status = cancelled } else i

abbrev cancel_selected : String → Option Invoice → Option Invoice
cancel_selected id none = none
cancel_selected id (some i) = some (cancel id i)

unfoldable pub cancel_invoice :
    BillingState → String → Answer (Unit {0}) → BillingState × Answer (Unit {0})
cancel_invoice s id (ok u) = (
  record (begin s) {
    invoices = map (cancel id) s.invoices;
    invoice = cancel_selected id s.invoice;
    loading = false;
  },
  ok tt,
)
cancel_invoice s id (threw t) = (fail t (begin s), threw t)

unfoldable pub fetch_overdue_invoices : BillingState → Answer (Option (List Invoice)) → BillingState
fetch_overdue_invoices s (ok r) = record (begin s) {
  overdue_invoices = or_else r [];
  loading = false;
}
fetch_overdue_invoices s (threw t) = record (fail t (begin s)) { overdue_invoices = [] }

-- `fetchClientPendingInvoices` and `fetchInvoicePayments`: the answer goes to the caller alone.
unfoldable pub fetch_client_pending_invoices :
    BillingState → Answer (List Invoice) → BillingState × Answer (List Invoice)
fetch_client_pending_invoices s (ok r) = (s, ok r)
fetch_client_pending_invoices s (threw t) =
    (record s { error = some (to_api_error t).message }, threw t)

unfoldable pub fetch_invoice_payments :
    BillingState → Answer (List Payment) → BillingState × Answer (List Payment)
fetch_invoice_payments s (ok r) = (s, ok r)
fetch_invoice_payments s (threw t) = (record s { error = some (to_api_error t).message }, threw t)

unfoldable pub fetch_payments : BillingState → Answer PaymentListResponse → BillingState
fetch_payments s a = if s.loading then s else (elim a [
  | ok r ↦ record (begin s) {
    payments = or_else r.items [];
    payment_pagination = record s.payment_pagination { total = or_else r.total 0 };
    loading = false;
  }
  | threw t ↦ record (fail t (begin s)) { payments = [] }
])

unfoldable pub fetch_payment : BillingState → Answer Payment → BillingState × Answer (Unit {0})
fetch_payment s (ok p) = (record (begin s) { payment = some p; loading = false }, ok tt)
fetch_payment s (threw t) = (fail t (begin s), threw t)

abbrev pub is_selected : Option Invoice → String → Bool
is_selected none id = false
is_selected (some i) id = str_eq i.id id

abbrev paid : BillingState → Payment → BillingState
paid s p = record (begin s) { payments = p ∷ s.payments; loading = false }

-- The second answer is that of the refresh, which is asked for only when the invoice is selected;
-- what the refresh throws is caught here and thrown again.
refresh_invoice :
    BillingState → RecordPaymentRequest → Payment → Answer Invoice → BillingState × Answer Payment
refresh_invoice s d p a =
    if is_selected s.invoice d.invoice_id
    then (let (s', end) = fetch_invoice s a in
        elim end [ ok u ↦ (s', ok p) | threw t ↦ (fail t s', threw t) ])
    else (s, ok p)

unfoldable pub record_payment :
    BillingState
    → RecordPaymentRequest
    → Answer Payment
    → Answer Invoice
    → BillingState × Answer Payment
unfolding refresh_invoice fetch_invoice
record_payment s d (ok p) refreshed = refresh_invoice (paid s p) d p refreshed
record_payment s d (threw t) refreshed = (fail t (begin s), threw t)

unfoldable pub fetch_billing_summary : BillingState → Answer BillingSummary → BillingState
fetch_billing_summary s (ok x) = record s { error = none; summary = some x }
fetch_billing_summary s (threw t) = record s { error = some (to_api_error t).message }

-- `{ ...state.invoiceFilters, ...filters }`: a key of `filters` that is there replaces, also by
-- `undefined`, so a partial filter is a function.
unfoldable pub set_invoice_filters : (InvoiceFilters → InvoiceFilters) → BillingState → BillingState
set_invoice_filters f s = record s {
  invoice_filters = f s.invoice_filters;
  invoice_pagination = record s.invoice_pagination { page = 1 };
}

unfoldable pub set_payment_filters : (PaymentFilters → PaymentFilters) → BillingState → BillingState
set_payment_filters f s = record s {
  payment_filters = f s.payment_filters;
  payment_pagination = record s.payment_pagination { page = 1 };
}

abbrev merge : Pagination → PaginationUpdate → Pagination
merge p u = record {
  page = or_else u.page p.page;
  page_size = or_else u.page_size p.page_size;
  total = or_else u.total p.total;
}

unfoldable pub set_invoice_pagination : PaginationUpdate → BillingState → BillingState
set_invoice_pagination u s = record s { invoice_pagination = merge s.invoice_pagination u }

unfoldable pub set_payment_pagination : PaginationUpdate → BillingState → BillingState
set_payment_pagination u s = record s { payment_pagination = merge s.payment_pagination u }

unfoldable pub clear_invoice : BillingState → BillingState
clear_invoice s = record s { invoice = none }

unfoldable pub clear_payment : BillingState → BillingState
clear_payment s = record s { payment = none }
