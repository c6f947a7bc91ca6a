-- ===== src/Collector/Assignments/Laws.antt =====
-- What a fetch of the assignments keeps, and what it does not see.
use rr_net.Prelude.{
  ◌≡◌, refl, ap, ◌∙◌, ◌⊎◌, inl, inr, true, false, List, [], ◌∷◌, ◌++◌, Option, none, some, String,
  str_eq, arith, eq_iff, Option-cases, Bool-cases,
}
use rr_net.Types.{Answer, ok, Invoice, InvoiceListResponse, CollectorAssignment, or_else}
use rr_net.Billing.{BillingState, set_invoice_filters, fetch_invoices, fetch_overdue_invoices}
use rr_net.Collector.{CollectorState}
use rr_net.Collector.Visits.{find_assignment}
use rr_net.Collector.Assignments.{
  collectible, lookup_last, assign, assign_all, kept, add_history, merge_assignments,
  fetch_assignments,
}

-- With no assignments and a billing store that has fetched nothing, a fetch gives no assignment,
-- whatever pending or overdue invoices the backend answers with: they reach the billing store only.
pub fetch_assignments-first :
    (now : String) (s : CollectorState) (b : BillingState) (r : InvoiceListResponse)
    (overdue : Option (List Invoice))
    → s.assignments ≡ []
    → b.invoices ≡ []
    → b.overdue_invoices ≡ []
    → b.loading ≡ false
    → let (s', b') = fetch_assignments now s b (ok r) (ok overdue) in
      (s'.assignments ≡ [])
      × (b'.invoices ≡ or_else r.items [])
      × (b'.overdue_invoices ≡ or_else overdue [])
unfolding fetch_assignments set_invoice_filters fetch_invoices fetch_overdue_invoices
fetch_assignments-first now s b r overdue e f g l = (rw (e, f, g) refl, rw l refl, refl)

find-append_some :
    (id : String) (xs ys : List CollectorAssignment) (a : CollectorAssignment)
    → find_assignment id xs ≡ some a
    → find_assignment id (xs ++ ys) ≡ some a
find-append_some id [] ys a e = cc
find-append_some id (x ∷ xs) ys a e = ground (arith, find-append_some id xs ys a)

find-append_none :
    (id : String) (xs ys : List CollectorAssignment)
    → find_assignment id xs ≡ none
    → find_assignment id (xs ++ ys) ≡ find_assignment id ys
find-append_none id [] ys e = refl
find-append_none id (x ∷ xs) ys e = ground (arith, find-append_none id xs ys)

kept-keeps :
    (invoices : List Invoice) (a : CollectorAssignment)
    → ((kept invoices a).invoice_id ≡ a.invoice_id)
      × ((kept invoices a).workflow_status ≡ a.workflow_status)
      × ((kept invoices a).visit_notes ≡ a.visit_notes)
unfolding kept
kept-keeps invoices a = ground arith

-- The assignment of an invoice, with the status and the notes of `a`.
abbrev pub Found : String → CollectorAssignment → List CollectorAssignment → Type 0
Found id a l =
    (b : CollectorAssignment) × (find_assignment id l ≡ some b)
    × (b.workflow_status ≡ a.workflow_status)
    × (b.visit_notes ≡ a.visit_notes)

add_history-Found :
    (invoices : List Invoice) (id : String) (a : CollectorAssignment)
    (acc old : List CollectorAssignment)
    → Found id a acc
    → Found id a (add_history invoices acc old)
unfolding add_history
add_history-Found invoices id a acc [] f = f
add_history-Found invoices id a acc (c ∷ old) (b, e, st, nt) =
    elim (Option-cases (find_assignment c.invoice_id acc)) [
      | inl fresh ↦
          rw (fresh, add_history)
            (add_history-Found invoices id a (acc ++ kept invoices c ∷ []) old
              (b, find-append_some id acc (kept invoices c ∷ []) b e, st, nt))
      | inr (d, there) ↦
          rw (there, add_history) (add_history-Found invoices id a acc old (b, e, st, nt))
    ]

add_history-adds :
    (invoices : List Invoice) (id : String) (a : CollectorAssignment)
    (acc old : List CollectorAssignment)
    → find_assignment id acc ≡ none
    → find_assignment id old ≡ some a
    → Found id a (add_history invoices acc old)
unfolding add_history
add_history-adds invoices id a acc [] n e = cc
add_history-adds invoices id a acc (c ∷ old) n e = elim (Bool-cases (str_eq c.invoice_id id)) [
  | inl same ↦
      let own : c.invoice_id ≡ id = (eq_iff c.invoice_id id).0 same in
      let this : c ≡ a = ground arith in
      let (keeps_id, keeps_status, keeps_notes) = kept-keeps invoices c in
      let fresh : find_assignment c.invoice_id acc ≡ none = rw own n in
      rw (fresh, add_history)
        (add_history-Found invoices id a (acc ++ kept invoices c ∷ []) old (
          kept invoices c,
          find-append_none id acc (kept invoices c ∷ []) n
              ∙ ground (arith, eq_iff (kept invoices c).invoice_id id),
          keeps_status ∙ ap (λ x. x.workflow_status) this,
          keeps_notes ∙ ap (λ x. x.visit_notes) this,
        ))
  | inr other ↦
      let later : find_assignment id old ≡ some a = ground arith in
      elim (Option-cases (find_assignment c.invoice_id acc)) [
        | inl fresh ↦
            rw (fresh, add_history)
              (add_history-adds invoices id a (acc ++ kept invoices c ∷ []) old
                (find-append_none id acc (kept invoices c ∷ []) n
                  ∙ ground (
                    arith,
                    kept-keeps invoices c,
                    eq_iff c.invoice_id id,
                    eq_iff (kept invoices c).invoice_id id,
                  ))
                later)
        | inr (d, there) ↦ rw (there, add_history) (add_history-adds invoices id a acc old n later)
      ]
]

assign-id :
    (now : String) (o : Option CollectorAssignment) (i : Invoice)
    → (assign now o i).invoice_id ≡ i.id
unfolding assign
assign-id now none i = refl
assign-id now (some a) i = refl

assign_all-Found :
    (now : String) (id : String) (a : CollectorAssignment) (old : List CollectorAssignment)
    (invoices : List Invoice)
    → lookup_last id old ≡ some a
    → (find_assignment id (assign_all now old invoices) ≡ none)
      ⊎ Found id a (assign_all now old invoices)
unfolding assign_all assign
assign_all-Found now id a old [] e = inl refl
assign_all-Found now id a old (i ∷ is) e = elim (Bool-cases (str_eq i.id id)) [
  | inl same ↦ inr (assign now (some a) i, chosen same, refl, refl)
  | inr other ↦
      let skip : str_eq (assign now (lookup_last i.id old) i).invoice_id id ≡ false =
        rw (assign-id now (lookup_last i.id old) i) other in
      rw skip (assign_all-Found now id a old is e)
]
  where
    chosen :
        str_eq i.id id ≡ true
        → find_assignment id (assign_all now old (i ∷ is)) ≡ some (assign now (some a) i)
    chosen same =
        let l : lookup_last i.id old ≡ some a = rw ((eq_iff i.id id).0 same) e in
        rw l (rw same refl)

-- An invoice that has a single assignment still has one after a fetch, collectible or not, with its
-- status and its notes.
pub fetch_assignments-keeps :
    (now : String) (s : CollectorState) (b : BillingState) (listed : Answer InvoiceListResponse)
    (overdue : Answer (Option (List Invoice))) (id : String) (a : CollectorAssignment)
    → find_assignment id s.assignments ≡ some a
    → lookup_last id s.assignments ≡ some a
    → Found id a (fetch_assignments now s b listed overdue).0.assignments
unfolding fetch_assignments merge_assignments
fetch_assignments-keeps now s b listed overdue id a first last =
    elim (assign_all-Found now id a s.assignments (collectible b) last) [
      | inl fresh ↦
          add_history-adds (collectible b) id a (assign_all now s.assignments (collectible b))
            s.assignments fresh first
      | inr there ↦
          add_history-Found (collectible b) id a (assign_all now s.assignments (collectible b))
            s.assignments there
    ]
