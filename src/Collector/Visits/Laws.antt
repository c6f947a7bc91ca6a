-- ===== src/Collector/Visits/Laws.antt =====
-- The workflow of assignments over any sequence of visits and reports.
use rr_net.Prelude.{
  ℕ, ◌≡◌, refl, ◌↔◌, inl, inr, true, not, List, [], ◌∷◌, map, none, some, String, str_eq, arith,
  eq_iff, filter, Option-cases, Bool-cases,
}
use rr_net.Types.{CollectorAssignment, visit_success, deposited}
use rr_net.Collector.{CollectorState}
use rr_net.Collector.Visits.{
  find_assignment, replace, submit_deposit_report, handed_in, is_visit_success,
}

pub find-id :
    (id : String) (l : List CollectorAssignment) (a : CollectorAssignment)
    → find_assignment id l ≡ some a
    → a.invoice_id ≡ id
find-id id [] a e = cc
find-id id (b ∷ l) a e = ground (arith, eq_iff b.invoice_id id, find-id id l a)

replace-ids :
    (id : String) (a : CollectorAssignment) (l : List CollectorAssignment)
    → a.invoice_id ≡ id
    → map (λ b. b.invoice_id) (replace id a l) ≡ map (λ (b : CollectorAssignment). b.invoice_id) l
replace-ids id a [] e = refl
replace-ids id a (b ∷ l) e = ground (arith, eq_iff b.invoice_id id, replace-ids id a l e)

replace-others :
    (id : String) (a : CollectorAssignment) (l : List CollectorAssignment)
    → a.invoice_id ≡ id
    → filter (λ b. not (str_eq b.invoice_id id)) (replace id a l)
      ≡ filter (λ (b : CollectorAssignment). not (str_eq b.invoice_id id)) l
replace-others id a [] e = refl
replace-others id a (b ∷ l) e =
    ground (arith, eq_iff b.invoice_id id, eq_iff a.invoice_id id, replace-others id a l e)

find-replace :
    (id : String) (a b : CollectorAssignment) (l : List CollectorAssignment)
    → a.invoice_id ≡ id
    → find_assignment id l ≡ some b
    → find_assignment id (replace id a l) ≡ some a
find-replace id a b [] e f = cc
find-replace id a b (c ∷ l) e f =
    ground (arith, eq_iff c.invoice_id id, eq_iff a.invoice_id id, find-replace id a b l e)

-- A deposit report is accepted exactly when the invoice has an assignment and its visit succeeded.
pub submit_deposit_report_iff :
    (create_url : ℕ → String) (now : String) (s : CollectorState) (id : String) (file : ℕ)
    → ((submit_deposit_report create_url now s id file).1 ≡ none) ↔ (
        (a : CollectorAssignment) × (find_assignment id s.assignments ≡ some a)
        × (a.workflow_status ≡ visit_success))
unfolding submit_deposit_report
submit_deposit_report_iff create_url now s id file =
    elim (Option-cases (find_assignment id s.assignments)) [
      | inl missing ↦ rw (missing, submit_deposit_report) ((λ e. cc), (λ (a, f, st). cc))
      | inr (a, found) ↦ elim (Bool-cases (is_visit_success a.workflow_status)) [
        | inl done ↦
            rw (found, submit_deposit_report)
              (rw done ((λ e. (a, refl, ground arith)), (λ x. refl)))
        | inr early ↦
            rw (found, submit_deposit_report) (rw early ((λ e. cc), (λ (b, f, st). ground arith)))
      ]
    ]

-- An accepted report makes the assignment deposited, with the proof and the time, and selects it;
-- the other assignments and the order of all stay.
pub submit_deposit_report_lem :
    (create_url : ℕ → String) (now : String) (s : CollectorState) (id : String) (file : ℕ)
    (a : CollectorAssignment)
    → find_assignment id s.assignments ≡ some a
    → a.workflow_status ≡ visit_success
    → let s' = (submit_deposit_report create_url now s id file).0 in
      (b : CollectorAssignment) × (find_assignment id s'.assignments ≡ some b)
      × (s'.selected_assignment ≡ some b)
      × (b.workflow_status ≡ deposited)
      × (b.deposit_proof_url ≡ some (create_url file))
      × (b.deposit_submitted_at ≡ some now)
      × (b.visit_notes ≡ a.visit_notes)
      × (filter (λ c. not (str_eq c.invoice_id id)) s'.assignments
          ≡ filter (λ c. not (str_eq c.invoice_id id)) s.assignments)
      × (map (λ c. c.invoice_id) s'.assignments ≡ map (λ c. c.invoice_id) s.assignments)
unfolding submit_deposit_report
submit_deposit_report_lem create_url now s id file a found done =
    let own = find-id id s.assignments a found in
    let good : is_visit_success a.workflow_status ≡ true = rw done refl in
    rw (found, submit_deposit_report)
      (rw good (
        b,
        find-replace id b a s.assignments own found,
        refl,
        refl,
        refl,
        refl,
        refl,
        replace-others id b s.assignments own,
        replace-ids id b s.assignments own,
      ))
  where
    b : CollectorAssignment
    b = handed_in create_url now file a
