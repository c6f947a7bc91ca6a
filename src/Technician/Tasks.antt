-- ===== src/Technician/Tasks.antt =====
-- The tasks of the technician store.
use rr_net.Prelude.{
  ◌≡◌, refl, sym, ap, ◌∙◌, subst, List, [], ◌∷◌, All, false, Option, none, some, String, Bool-cases,
  inl, inr,
}
use rr_net.Types.{Answer, ok, threw}
use rr_net.Errors.{to_api_error}
use rr_net.Types.Field.{TechnicianTask, TaskSummary, task_keyed}
use rr_net.Keyed.{replace, changes, contents, FitsAll}
use rr_net.Keyed.Laws.{changes-append}
use rr_net.Keyed.Agreement.{Agrees, Keeps, changes-Agrees}
use rr_net.Technician.{
  TechnicianState, begin, fail, start_fetch, start_fetch_task_summary, complete_task,
  end_fetch_tasks, end_fetch_task, end_create_task, end_update_task, end_delete_task,
  end_start_task, end_complete_task, end_cancel_task, end_fetch_task_summary,
  end_fetch_task_activity_logs, end_fetch_activity_logs, end_log_activity,
}
use rr_net.Technician.Events.{
  Event, begins, starts_fetch, starts_summary, cleared, fetched, got, created, updated, deleted,
  started, completed, cancels, summed, task_logs, logs, logged, perform, run, task_change,
  task_changes,
}

perform-tasks :
    (s : TechnicianState) (e : Event) → (perform s e).tasks ≡ changes s.tasks (task_change e)
unfolding perform begin start_fetch start_fetch_task_summary fail end_fetch_tasks end_fetch_task
    end_create_task end_update_task end_delete_task end_start_task end_complete_task end_cancel_task
    end_fetch_task_summary end_fetch_task_activity_logs end_fetch_activity_logs end_log_activity
perform-tasks s begins = refl
perform-tasks s starts_fetch = elim (Bool-cases s.loading) [ inl b ↦ rw b refl | inr b ↦ rw b refl ]
perform-tasks s starts_summary = refl
perform-tasks s cleared = refl
perform-tasks s (fetched (ok a)) = refl
perform-tasks s (fetched (threw t)) = refl
perform-tasks s (got (ok a)) = refl
perform-tasks s (got (threw t)) = refl
perform-tasks s (created (ok a)) = refl
perform-tasks s (created (threw t)) = refl
perform-tasks s (updated id (ok a)) = refl
perform-tasks s (updated id (threw t)) = refl
perform-tasks s (deleted id (ok a)) = refl
perform-tasks s (deleted id (threw t)) = refl
perform-tasks s (started id (ok a)) = refl
perform-tasks s (started id (threw t)) = refl
perform-tasks s (completed id (ok a)) = refl
perform-tasks s (completed id (threw t)) = refl
perform-tasks s (cancels id (ok a)) = refl
perform-tasks s (cancels id (threw t)) = refl
perform-tasks s (summed (ok a)) = refl
perform-tasks s (summed (threw t)) = refl
perform-tasks s (task_logs (ok a)) = refl
perform-tasks s (task_logs (threw t)) = refl
perform-tasks s (logs (ok a)) = refl
perform-tasks s (logs (threw t)) = refl
perform-tasks s (logged (ok a)) = refl
perform-tasks s (logged (threw t)) = refl

pub run-tasks :
    (s : TechnicianState) (es : List Event) → (run s es).tasks ≡ changes s.tasks (task_changes es)
unfolding run
run-tasks s [] = refl
run-tasks s (e ∷ es) =
    run-tasks (perform s e) es
    ∙ ap (λ t. changes t (task_changes es)) (perform-tasks s e)
    ∙ sym (changes-append s.tasks (task_change e) (task_changes es))

-- Whatever is done to tasks while neither the list nor a single task is fetched, an open task is the same
-- as the task with its id in the list, also after it is started, completed, updated or cancelled; when
-- it is deleted, none is open. The backend gives created tasks new ids, and updated ones the id asked for.
pub run-Agrees :
    (s : TechnicianState) (es : List Event)
    → FitsAll (contents s.tasks) (task_changes es)
    → All Keeps (task_changes es)
    → Agrees s.tasks
    → Agrees (run s es).tasks
run-Agrees s es f g h =
    subst Agrees (sym (run-tasks s es)) (changes-Agrees s.tasks (task_changes es) f g h)

abbrev message_from : {A : Type 0} → Answer A → Option String
message_from (ok a) = none
message_from (threw t) = some (to_api_error t).message

-- Completing a task returns the completed task, also when the summary then cannot be fetched: the tasks
-- are the completed task and the others, and only the error tells. A task that is not completed is
-- thrown, with the tasks as they were and no summary fetched.
pub complete_task_lem :
    (s : TechnicianState) (id : String) (answer : Answer TechnicianTask)
    (summary : Answer TaskSummary)
    → let r = complete_task s id answer summary in
      (r.1 ≡ answer)
      × (r.0.loading ≡ false)
      × (r.0.error
          ≡ elim answer [ ok t ↦ message_from summary | threw t ↦ some (to_api_error t).message ])
      × (r.0.tasks ≡ elim answer [ ok t ↦ replace id t s.tasks | threw t ↦ s.tasks ])
      × (r.0.summary ≡ elim answer [
        | ok t ↦ elim summary [ ok n ↦ some n | threw t' ↦ s.summary ]
        | threw t ↦ s.summary
      ])
unfolding complete_task fail
complete_task_lem s id (ok t) (ok n) = (refl, refl, refl, refl, refl)
complete_task_lem s id (ok t) (threw u) = (refl, refl, refl, refl, refl)
complete_task_lem s id (threw t) summary = (refl, refl, refl, refl, refl)
