-- ===== src/Billing/Payments.antt =====
-- Recording a payment and cancelling an invoice.
use rr_net.Prelude.{
  inr, inl, Bool-cases, ◌≡◌, refl, ◌↔◌, true, false, not, List, [], ◌∷◌, map, Option, none, some,
  String, str_eq, arith, filter, All,
}
use rr_net.Errors.{Thrown}
use rr_net.Types.{Answer, ok, threw, Invoice, Payment, RecordPaymentRequest, cancelled}
use rr_net.Billing.{
  BillingState, is_selected, record_payment, cancel_invoice, cancel, cancel_selected,
}

-- Once the backend has recorded a payment it stands first in the list, whatever follows. The action
-- nevertheless throws exactly when the invoice of the payment is selected and its refresh fails.
pub record_payment-recorded :
    (s : BillingState) (d : RecordPaymentRequest) (p : Payment) (refreshed : Answer Invoice)
    → let (s', end) = record_payment s d (ok p) refreshed in
      (s'.payments ≡ p ∷ s.payments)
      × (s'.loading ≡ false)
      × (((t : Thrown) × (end ≡ threw t))
          ↔ ((is_selected s.invoice d.invoice_id ≡ true) × ((t : Thrown) × (refreshed ≡ threw t))))
unfolding record_payment
record_payment-recorded s d p (ok i) =
    (ground arith, ground arith, (λ (t, e). ground arith, λ (sel, (t, e)). cc))
record_payment-recorded s d p (threw x) = (
  ground arith,
  ground arith,
  (λ (t, e). (ground arith, (x, refl)), λ (sel, y). (x, ground arith)),
)

cancel-All :
    (id : String) (is : List Invoice)
    → All (λ i. i.status ≡ cancelled) (filter (λ i. str_eq i.id id) (map (cancel id) is))
cancel-All id [] = tt
cancel-All id (i ∷ is) = elim (Bool-cases (str_eq i.id id)) [
  | inl same ↦ rw (same, cancel) (rw same (refl, cancel-All id is))
  | inr other ↦ rw (other, cancel) (rw other (cancel-All id is))
]

cancel-ids :
    (id : String) (is : List Invoice)
    → map (λ i. i.id) (map (cancel id) is) ≡ map (λ (i : Invoice). i.id) is
cancel-ids id [] = refl
cancel-ids id (i ∷ is) = ground (arith, cancel-ids id is)

cancel-others :
    (id : String) (is : List Invoice)
    → filter (λ i. not (str_eq i.id id)) (map (cancel id) is)
      ≡ filter (λ (i : Invoice). not (str_eq i.id id)) is
cancel-others id [] = refl
cancel-others id (i ∷ is) = ground (arith, cancel-others id is)

abbrev pub listed : Option Invoice → List Invoice
listed none = []
listed (some i) = i ∷ []

-- After an invoice is cancelled every copy of it in the list is, the selected one too; the list
-- keeps its order and its other invoices.
pub cancel_invoice_lem :
    (s : BillingState) (id : String)
    → let s' = (cancel_invoice s id (ok tt)).0 in
      All (λ i. i.status ≡ cancelled) (filter (λ i. str_eq i.id id) s'.invoices)
      × All (λ i. i.status ≡ cancelled) (filter (λ i. str_eq i.id id) (listed s'.invoice))
      × (map (λ i. i.id) s'.invoices ≡ map (λ i. i.id) s.invoices)
      × (filter (λ i. not (str_eq i.id id)) s'.invoices
          ≡ filter (λ i. not (str_eq i.id id)) s.invoices)
unfolding cancel_invoice
cancel_invoice_lem s id = (
  cancel-All id s.invoices,
  selected s.invoice,
  cancel-ids id s.invoices,
  cancel-others id s.invoices,
)
  where
    selected :
        (o : Option Invoice)
        → All
            (λ i. i.status ≡ cancelled)
            (filter (λ i. str_eq i.id id) (listed (cancel_selected id o)))
    selected none = tt
    selected (some j) = cancel-All id (j ∷ [])
