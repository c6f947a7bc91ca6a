-- ===== src/Collector/Assignments.antt =====
-- fe/src/stores/collectorStore.ts: `fetchAssignments`. `useBillingStore.getState()` is the state at
-- the call: zustand replaces the state by a new object, so what the billing actions fetch meanwhile
-- is in the store and not in this object. The billing actions do not throw, so the `catch` is
-- never taken.
pub mod Laws
use rr_net.Prelude.{
  ℕ, Bool, true, false, not, List, [], ◌∷◌, ◌++◌, map, Option, none, some, String, str_eq,
  if◌then◌else◌, find?, filter, any, truthy,
}
use rr_net.Types.{
  Answer, Invoice, InvoiceStatus, pending, InvoiceListResponse, CollectorAssignment,
  CollectorWorkflowStatus, assigned,
}
use rr_net.Billing.{BillingState, set_invoice_filters, fetch_invoices, fetch_overdue_invoices}
use rr_net.Collector.{CollectorState, begin}
use rr_net.Collector.Visits.{find_assignment}

abbrev pub is_pending : InvoiceStatus → Bool
is_pending pending = true
is_pending _ = false

abbrev pub has_invoice : String → List Invoice → Bool
has_invoice id = any (λ i. str_eq i.id id)

-- The pending invoices, then the overdue ones that are not among them.
pub collectible : BillingState → List Invoice
collectible b =
    let pending_invoices = filter (λ i. is_pending i.status) b.invoices in
    pending_invoices ++ filter (λ i. not (has_invoice i.id pending_invoices)) b.overdue_invoices

-- `new Map(…).get(id)`: a later entry replaces an earlier one.
unfoldable pub lookup_last : String → List CollectorAssignment → Option CollectorAssignment
lookup_last id [] = none
lookup_last id (a ∷ l) = elim (lookup_last id l) [
  | none ↦ if str_eq a.invoice_id id then some a else none
  | some b ↦ some b
]

abbrev or_now : Option String → String → Option String
or_now none now = some now
or_now (some t) now = if truthy t then some t else some now

pub assign : String → Option CollectorAssignment → Invoice → CollectorAssignment
assign now none i = record {
  invoice_id = i.id;
  invoice = i;
  workflow_status = assigned;
  assigned_at = some now;
  visit_notes = none;
  visit_photo_url = none;
  deposit_proof_url = none;
  deposit_submitted_at = none;
  confirmed_at = none;
  local_state = none;
}
assign now (some a) i = record {
  invoice_id = i.id;
  invoice = i;
  workflow_status = a.workflow_status;
  assigned_at = or_now a.assigned_at now;
  visit_notes = a.visit_notes;
  visit_photo_url = a.visit_photo_url;
  deposit_proof_url = a.deposit_proof_url;
  deposit_submitted_at = a.deposit_submitted_at;
  confirmed_at = a.confirmed_at;
  local_state = none;
}

pub assign_all : String → List CollectorAssignment → List Invoice → List CollectorAssignment
unfolding assign lookup_last
assign_all now old = map (λ i. assign now (lookup_last i.id old) i)

kept : List Invoice → CollectorAssignment → CollectorAssignment
kept invoices a = elim (find? (λ i. str_eq i.id a.invoice_id) invoices) [
  | none ↦ a
  | some i ↦ record a { invoice = i }
]

-- The assignments whose invoice has none yet are pushed behind the others.
pub add_history :
    List Invoice → List CollectorAssignment → List CollectorAssignment → List CollectorAssignment
unfolding kept
add_history invoices acc [] = acc
add_history invoices acc (a ∷ old) =
    add_history invoices
      (elim (find_assignment a.invoice_id acc) [
        | none ↦ acc ++ kept invoices a ∷ []
        | some b ↦ acc
      ])
      old

pub merge_assignments : String → List Invoice → List CollectorAssignment → List CollectorAssignment
unfolding assign_all add_history
merge_assignments now invoices old = add_history invoices (assign_all now old invoices) old

-- The collector's state and the billing store's, with the answers to the two billing calls.
unfoldable pub fetch_assignments :
    (now : String)
    → CollectorState
    → BillingState
    → Answer InvoiceListResponse
    → Answer (Option (List Invoice))
    → CollectorState × BillingState
unfolding collectible merge_assignments
fetch_assignments now s b listed overdue =
    let filtered = set_invoice_filters (λ f. record f { status = some "pending" }) b in
    (
      record (begin s) {
        assignments = merge_assignments now (collectible b) s.assignments;
        loading = false;
      },
      fetch_overdue_invoices (fetch_invoices filtered listed) overdue,
    )
