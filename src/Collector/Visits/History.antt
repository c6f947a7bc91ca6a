-- ===== src/Collector/Visits/History.antt =====
-- Whole histories of visits and reports.
use rr_net.Prelude.{
  ℕ, Bool, true, false, not, ◌&&◌, ◌||◌, List, [], ◌∷◌, Option, String, str_eq, any,
}
use rr_net.Types.{CollectorAssignment, CollectorWorkflowStatus, visit_success, deposited, confirmed}
use rr_net.Collector.{CollectorState}
use rr_net.Collector.Visits.{mark_visit_success, mark_visit_failed, submit_deposit_report}

-- The actions of the workflow.
pub data Visit : Type 0 where
  succeeds : String → (notes : Option String) → (photo : Option ℕ) → Visit
  fails : String → (notes : Option String) → Visit
  reports : String → (file : ℕ) → Visit

module _ (create_url : ℕ → String) (now : String) where
  pub perform : CollectorState → Visit → CollectorState
  perform s (succeeds id notes photo) = (mark_visit_success create_url s id notes photo).0
  perform s (fails id notes) = (mark_visit_failed s id notes).0
  perform s (reports id file) = (submit_deposit_report create_url now s id file).0

  unfoldable pub run : CollectorState → List Visit → CollectorState
  unfolding perform
  run s [] = s
  run s (v ∷ vs) = run (perform s v) vs

abbrev is_success_of : String → Visit → Bool
is_success_of id (succeeds k notes photo) = str_eq k id
is_success_of id (fails k notes) = false
is_success_of id (reports k file) = false

-- Whether a successful visit to the invoice is among the actions.
abbrev pub succeeded_in : List Visit → String → Bool
succeeded_in vs id = any (is_success_of id) vs

abbrev needs_success : CollectorWorkflowStatus → Bool
needs_success visit_success = true
needs_success deposited = true
needs_success _ = false

abbrev is_confirmed : CollectorWorkflowStatus → Bool
is_confirmed confirmed = true
is_confirmed _ = false

-- A status that the successful visits `seen` account for.
abbrev pub is_accounted : (String → Bool) → CollectorAssignment → Bool
is_accounted seen a =
    (not (needs_success a.workflow_status) || seen a.invoice_id)
    && not (is_confirmed a.workflow_status)
