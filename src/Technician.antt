-- ===== src/Technician.antt =====
-- fe/src/stores/technicianStore.ts. An action is two steps, as other actions may run while it waits for
-- the backend: `begin` or `start_fetch`, and what follows the answer. Unless it is said, an action that is
-- not a fetch of a list throws what the backend threw.
pub mod Events
pub mod Tasks
use rr_net.Prelude.{Bool, true, false, List, [], ◌∷◌, Option, none, some, String, if◌then◌else◌}
use rr_net.Errors.{Thrown, to_api_error}
use rr_net.Types.{Answer, ok, threw, or_else}
use rr_net.Types.Field.{TechnicianTask, ActivityLog, TaskSummary, task_keyed}
use rr_net.Types.Field as Field
use rr_net.Keyed.{
  Shelf, empty_shelf, put_all, open_item, close_item, prepend, replace, remove, edit_with_open,
}

pub record TechnicianState : Type 0 where
  pub tasks : Shelf TechnicianTask
  pub activity_logs : List ActivityLog
  pub summary : Option TaskSummary
  pub loading : Bool
  pub error : Option String

unfoldable pub initial : TechnicianState
initial = record {
  tasks = empty_shelf;
  activity_logs = [];
  summary = none;
  loading = false;
  error = none;
}

unfoldable pub begin : TechnicianState → TechnicianState
begin s = record s { loading = true; error = none }

unfoldable pub fail : Thrown → TechnicianState → TechnicianState
fail t s = record s { error = some (to_api_error t).message; loading = false }

-- The start of `fetchTasks` and `fetchActivityLogs`: `none` when the store is loading, and nothing is
-- asked of the backend.
unfoldable pub start_fetch : TechnicianState → Option TechnicianState
start_fetch s = if s.loading then none else some (record s { loading = true; error = none })

unfoldable pub end_fetch_tasks :
    TechnicianState → Answer (Option (List TechnicianTask)) → TechnicianState
end_fetch_tasks s (ok l) = record s { tasks = put_all (or_else l []) s.tasks; loading = false }
end_fetch_tasks s (threw t) = record s {
  error = some (to_api_error t).message;
  loading = false;
  tasks = put_all [] s.tasks;
}

unfoldable pub end_fetch_task : TechnicianState → Answer TechnicianTask → TechnicianState
unfolding fail
end_fetch_task s (ok a) = record s { tasks = open_item a s.tasks; loading = false }
end_fetch_task s (threw t) = fail t s

unfoldable pub end_create_task : TechnicianState → Answer TechnicianTask → TechnicianState
unfolding fail
end_create_task s (ok a) = record s { tasks = prepend a s.tasks; loading = false }
end_create_task s (threw t) = fail t s

unfoldable pub end_update_task : TechnicianState → String → Answer TechnicianTask → TechnicianState
unfolding fail
end_update_task s id (ok a) = record s { tasks = replace id a s.tasks; loading = false }
end_update_task s id (threw t) = fail t s

unfoldable pub end_delete_task : TechnicianState → String → Answer (Unit {0}) → TechnicianState
unfolding fail
end_delete_task s id (ok u) = record s { tasks = remove id s.tasks; loading = false }
end_delete_task s id (threw t) = fail t s

unfoldable pub end_start_task : TechnicianState → String → Answer TechnicianTask → TechnicianState
unfolding fail
end_start_task s id (ok a) = record s { tasks = replace id a s.tasks; loading = false }
end_start_task s id (threw t) = fail t s

-- Before the summary is fetched again.
unfoldable pub end_complete_task :
    TechnicianState → String → Answer TechnicianTask → TechnicianState
unfolding fail
end_complete_task s id (ok a) = record s { tasks = replace id a s.tasks; loading = false }
end_complete_task s id (threw t) = fail t s

abbrev pub cancelled : TechnicianTask → TechnicianTask
cancelled t = record t { status = Field.cancelled }

unfoldable pub end_cancel_task : TechnicianState → String → Answer (Unit {0}) → TechnicianState
unfolding fail
end_cancel_task s id (ok u) = record s {
  tasks = edit_with_open id cancelled s.tasks;
  loading = false;
}
end_cancel_task s id (threw t) = fail t s

-- Neither step touches `loading`, and nothing is thrown.
unfoldable pub start_fetch_task_summary : TechnicianState → TechnicianState
start_fetch_task_summary s = record s { error = none }

unfoldable pub end_fetch_task_summary : TechnicianState → Answer TaskSummary → TechnicianState
end_fetch_task_summary s (ok a) = record s { summary = some a }
end_fetch_task_summary s (threw t) = record s { error = some (to_api_error t).message }

-- Of `fetchTaskActivityLogs`, which starts with `begin`, and of `fetchActivityLogs`, which starts with
-- `start_fetch`.
unfoldable pub end_fetch_task_activity_logs :
    TechnicianState → Answer (Option (List ActivityLog)) → TechnicianState
end_fetch_task_activity_logs s (ok l) = record s { activity_logs = or_else l []; loading = false }
end_fetch_task_activity_logs s (threw t) = record s {
  error = some (to_api_error t).message;
  loading = false;
  activity_logs = [];
}

unfoldable pub end_fetch_activity_logs :
    TechnicianState → Answer (Option (List ActivityLog)) → TechnicianState
end_fetch_activity_logs s (ok l) = record s { activity_logs = or_else l []; loading = false }
end_fetch_activity_logs s (threw t) = record s {
  error = some (to_api_error t).message;
  loading = false;
  activity_logs = [];
}

unfoldable pub end_log_activity : TechnicianState → Answer ActivityLog → TechnicianState
unfolding fail
end_log_activity s (ok a) = record s { activity_logs = a ∷ s.activity_logs; loading = false }
end_log_activity s (threw t) = fail t s

abbrev pub clear_task : TechnicianState → TechnicianState
clear_task s = record s { tasks = close_item s.tasks }

-- `completeTask` as a whole, with the answers to it and to the fetch of the summary, and what it
-- returns or throws. Nothing else runs in between.
unfoldable pub complete_task :
    TechnicianState
    → String
    → Answer TechnicianTask
    → Answer TaskSummary
    → TechnicianState × Answer TechnicianTask
unfolding begin end_complete_task start_fetch_task_summary end_fetch_task_summary
complete_task s id (ok t) summary =
    let s' = end_complete_task (begin s) id (ok t) in
    (end_fetch_task_summary (start_fetch_task_summary s') summary, ok t)
complete_task s id (threw t) summary = (end_complete_task (begin s) id (threw t), threw t)
