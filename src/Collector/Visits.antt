-- ===== src/Collector/Visits.antt =====
-- fe/src/stores/collectorStore.ts: the workflow of one assignment.
pub mod Laws
pub mod History
use rr_net.Prelude.{
  ℕ, Bool, true, false, List, [], ◌∷◌, map, Option, none, some, String, str_eq, if◌then◌else◌,
  find?, truthy,
}
use rr_net.Types.{
  CollectorAssignment, CollectorWorkflowStatus, assigned, visit_success, visit_failed, deposited,
  confirmed, LocalState,
}
use rr_net.Collector.{CollectorState, begin, fail}

abbrev pub find_assignment : String → List CollectorAssignment → Option CollectorAssignment
find_assignment id = find? (λ a. str_eq a.invoice_id id)

-- Every assignment of the invoice becomes `a`.
abbrev pub replace :
    String → CollectorAssignment → List CollectorAssignment → List CollectorAssignment
replace id a = map (λ b. if str_eq b.invoice_id id then a else b)

-- `notes || assignment.visit_notes`.
abbrev or_notes : Option String → Option String → Option String
or_notes none old = old
or_notes (some n) old = if truthy n then some n else old

abbrev url_of : (ℕ → String) → Option ℕ → Option String → Option String
url_of create_url none old = old
url_of create_url (some f) old = some (create_url f)

abbrev succeeded :
    (ℕ → String) → Option String → Option ℕ → CollectorAssignment → CollectorAssignment
succeeded create_url notes photo a = record a {
  workflow_status = visit_success;
  visit_notes = or_notes notes a.visit_notes;
  visit_photo_url = url_of create_url photo a.visit_photo_url;
  local_state =
      some (record { visit_notes = notes; visit_photo_file = photo; deposit_proof_file = none });
}

abbrev failed : Option String → CollectorAssignment → CollectorAssignment
failed notes a = record a {
  workflow_status = visit_failed;
  visit_notes = or_notes notes a.visit_notes;
}

abbrev with_proof : ℕ → Option LocalState → LocalState
with_proof file none = record {
  visit_notes = none;
  visit_photo_file = none;
  deposit_proof_file = some file;
}
with_proof file (some l) = record l { deposit_proof_file = some file }

abbrev handed_in : (ℕ → String) → (now : String) → ℕ → CollectorAssignment → CollectorAssignment
handed_in create_url now file a = record a {
  workflow_status = deposited;
  deposit_proof_url = some (create_url file);
  deposit_submitted_at = some now;
  local_state = some (with_proof file a.local_state);
}

abbrev pub not_found : String
not_found = "Assignment not found"

abbrev pub too_early : String
too_early = "Can only submit deposit report after successful visit"

store : CollectorState → String → CollectorAssignment → CollectorState × Option String
store s id a = (
  record (begin s) {
    assignments = replace id a s.assignments;
    loading = false;
    selected_assignment = some a;
  },
  none,
)

refuse : CollectorState → String → CollectorState × Option String
refuse s message = (fail message (begin s), some message)

-- Each action gives the state and, when it throws, the message.
unfoldable pub mark_visit_success :
    (ℕ → String)
    → CollectorState
    → String
    → Option String
    → Option ℕ
    → CollectorState × Option String
unfolding store refuse
mark_visit_success create_url s id notes photo = elim (find_assignment id s.assignments) [
  | none ↦ refuse s not_found
  | some a ↦ store s id (succeeded create_url notes photo a)
]

unfoldable pub mark_visit_failed :
    CollectorState → String → Option String → CollectorState × Option String
unfolding store refuse
mark_visit_failed s id notes = elim (find_assignment id s.assignments) [
  | none ↦ refuse s not_found
  | some a ↦ store s id (failed notes a)
]

abbrev pub is_visit_success : CollectorWorkflowStatus → Bool
is_visit_success visit_success = true
is_visit_success _ = false

unfoldable pub submit_deposit_report :
    (ℕ → String) → (now : String) → CollectorState → String → ℕ → CollectorState × Option String
unfolding store refuse
submit_deposit_report create_url now s id file = elim (find_assignment id s.assignments) [
  | none ↦ refuse s not_found
  | some a ↦
      if is_visit_success a.workflow_status
      then store s id (handed_in create_url now file a)
      else refuse s too_early
]
