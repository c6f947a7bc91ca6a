-- ===== src/Technician/Events.antt =====
-- Sequences of what happens to the technician store, and the changes of its tasks in them.
use rr_net.Prelude.{List, [], ◌∷◌, ◌++◌, Option, String}
use rr_net.Types.{Answer, ok, threw, or_else}
use rr_net.Types.Field.{TechnicianTask, ActivityLog, TaskSummary, task_keyed}
use rr_net.Keyed.{Change, lists, opens, closes, prepends, replaces, removes, edits_open}
use rr_net.Technician.{
  TechnicianState, begin, start_fetch, start_fetch_task_summary, cancelled, clear_task,
  end_fetch_tasks, end_fetch_task, end_create_task, end_update_task, end_delete_task,
  end_start_task, end_complete_task, end_cancel_task, end_fetch_task_summary,
  end_fetch_task_activity_logs, end_fetch_activity_logs, end_log_activity,
}

pub data Event : Type 0 where
  begins starts_fetch starts_summary cleared : Event
  fetched : Answer (Option (List TechnicianTask)) → Event
  got : Answer TechnicianTask → Event
  created : Answer TechnicianTask → Event
  updated : String → Answer TechnicianTask → Event
  deleted : String → Answer (Unit {0}) → Event
  started : String → Answer TechnicianTask → Event
  completed : String → Answer TechnicianTask → Event
  cancels : String → Answer (Unit {0}) → Event
  summed : Answer TaskSummary → Event
  task_logs : Answer (Option (List ActivityLog)) → Event
  logs : Answer (Option (List ActivityLog)) → Event
  logged : Answer ActivityLog → Event

unfoldable pub perform : TechnicianState → Event → TechnicianState
perform s begins = begin s
perform s starts_fetch = or_else (start_fetch s) s
perform s starts_summary = start_fetch_task_summary s
perform s cleared = clear_task s
perform s (fetched a) = end_fetch_tasks s a
perform s (got a) = end_fetch_task s a
perform s (created a) = end_create_task s a
perform s (updated id a) = end_update_task s id a
perform s (deleted id a) = end_delete_task s id a
perform s (started id a) = end_start_task s id a
perform s (completed id a) = end_complete_task s id a
perform s (cancels id a) = end_cancel_task s id a
perform s (summed a) = end_fetch_task_summary s a
perform s (task_logs a) = end_fetch_task_activity_logs s a
perform s (logs a) = end_fetch_activity_logs s a
perform s (logged a) = end_log_activity s a

unfoldable pub run : TechnicianState → List Event → TechnicianState
run s [] = s
run s (e ∷ es) = run (perform s e) es

abbrev pub task_change : Event → List (Change TechnicianTask)
task_change (fetched (ok a)) = lists (or_else a []) ∷ []
task_change (fetched (threw t)) = lists [] ∷ []
task_change (got (ok a)) = opens a ∷ []
task_change (created (ok a)) = prepends a ∷ []
task_change (updated id (ok a)) = replaces id a ∷ []
task_change (deleted id (ok a)) = removes id ∷ []
task_change (started id (ok a)) = replaces id a ∷ []
task_change (completed id (ok a)) = replaces id a ∷ []
task_change (cancels id (ok a)) = edits_open id cancelled ∷ []
task_change cleared = closes ∷ []
task_change _ = []

abbrev pub task_changes : List Event → List (Change TechnicianTask)
task_changes [] = []
task_changes (e ∷ es) = task_change e ++ task_changes es
