-- ===== src/Billing/Settles.antt =====
-- Any sequence of completed billing actions.
use rr_net.Prelude.{◌≡◌, refl, false, List, [], ◌∷◌, Option, none, String, arith}
use rr_net.Types.{
  Answer, ok, Invoice, InvoiceListResponse, Payment, PaymentListResponse, BillingSummary,
  RecordPaymentRequest, or_else,
}
use rr_net.Billing.{
  BillingState, InvoiceFilters, PaymentFilters, PaginationUpdate, initial, fetch_invoices,
  fetch_invoice, create_invoice, generate_monthly_invoice, cancel_invoice, fetch_overdue_invoices,
  fetch_client_pending_invoices, fetch_invoice_payments, fetch_payments, fetch_payment,
  record_payment, fetch_billing_summary, set_invoice_filters, set_payment_filters,
  set_invoice_pagination, set_payment_pagination, clear_invoice, clear_payment,
}

-- An action of the store with the answers that it gets.
pub data Action : Type 0 where
  fetches_invoices : Answer InvoiceListResponse → Action
  fetches_invoice : Answer Invoice → Action
  creates : Answer Invoice → Action
  generates : Answer Invoice → Action
  cancels : String → Answer (Unit {0}) → Action
  fetches_overdue : Answer (Option (List Invoice)) → Action
  fetches_pending : Answer (List Invoice) → Action
  fetches_invoice_payments : Answer (List Payment) → Action
  fetches_payments : Answer PaymentListResponse → Action
  fetches_payment : Answer Payment → Action
  records : RecordPaymentRequest → Answer Payment → Answer Invoice → Action
  summarises : Answer BillingSummary → Action
  filters_invoices : (InvoiceFilters → InvoiceFilters) → Action
  filters_payments : (PaymentFilters → PaymentFilters) → Action
  pages_invoices : PaginationUpdate → Action
  pages_payments : PaginationUpdate → Action
  clears_invoice clears_payment : Action

pub perform : BillingState → Action → BillingState
perform s (fetches_invoices a) = fetch_invoices s a
perform s (fetches_invoice a) = (fetch_invoice s a).0
perform s (creates a) = (create_invoice s a).0
perform s (generates a) = (generate_monthly_invoice s a).0
perform s (cancels id a) = (cancel_invoice s id a).0
perform s (fetches_overdue a) = fetch_overdue_invoices s a
perform s (fetches_pending a) = (fetch_client_pending_invoices s a).0
perform s (fetches_invoice_payments a) = (fetch_invoice_payments s a).0
perform s (fetches_payments a) = fetch_payments s a
perform s (fetches_payment a) = (fetch_payment s a).0
perform s (records d a b) = (record_payment s d a b).0
perform s (summarises a) = fetch_billing_summary s a
perform s (filters_invoices f) = set_invoice_filters f s
perform s (filters_payments f) = set_payment_filters f s
perform s (pages_invoices u) = set_invoice_pagination u s
perform s (pages_payments u) = set_payment_pagination u s
perform s clears_invoice = clear_invoice s
perform s clears_payment = clear_payment s

unfoldable pub run : BillingState → List Action → BillingState
unfolding perform
run s [] = s
run s (a ∷ rest) = run (perform s a) rest

perform-loading :
    (s : BillingState) (a : Action) → s.loading ≡ false → (perform s a).loading ≡ false
unfolding perform fetch_invoices fetch_invoice create_invoice generate_monthly_invoice
    cancel_invoice fetch_overdue_invoices fetch_client_pending_invoices fetch_invoice_payments
    fetch_payments fetch_payment record_payment fetch_billing_summary set_invoice_filters
    set_payment_filters set_invoice_pagination set_payment_pagination clear_invoice clear_payment
perform-loading s (fetches_invoices a) h = ground arith
perform-loading s _ h = ground arith

run-loading :
    (s : BillingState) (rest : List Action) → s.loading ≡ false → (run s rest).loading ≡ false
unfolding run
run-loading s [] h = h
run-loading s (a ∷ rest) h = run-loading (perform s a) rest (perform-loading s a h)

-- After any sequence of completed actions, failed ones included, the store is idle: a fetch of the
-- invoices is not skipped, and shows what the backend answers.
pub fetch_invoices-run :
    (rest : List Action) (r : InvoiceListResponse)
    → let s = fetch_invoices (run initial rest) (ok r) in
      (s.invoices ≡ or_else r.items []) × (s.loading ≡ false) × (s.error ≡ none)
unfolding fetch_invoices
fetch_invoices-run rest r = ground (arith, run-loading initial rest (unfold initial in refl))
