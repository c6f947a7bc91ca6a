-- ===== src/Tests/Fields.antt =====
-- The maps, the technician and the super-admin store, with one or two items each.
use rr_net.Prelude.{◌≡◌, refl, true, false, List, [], ◌∷◌, none, some, String, if◌then◌else◌}
use rr_net.Errors.{string}
use rr_net.Types.{ok, threw}
use rr_net.Types.Field.{
  Degrees, Odc, OutageEvent, TechnicianTask, pending, in_progress, odc_keyed, odp_keyed,
  location_keyed, outage_keyed, task_keyed,
}
use rr_net.Types.Admin.{Plan, tenant_keyed, plan_keyed, addon_keyed}
use rr_net.Keyed.{contents, effects}
use rr_net.Keyed.Agreement.{Agrees}
use rr_net.Maps as Maps
use rr_net.Maps.Events as MapEvents
use rr_net.Maps.Refinement.{run-refines}
use rr_net.Maps.Refresh.{start_all, page_fetches, start_all-page_fetches, odcs, Nodes}
use rr_net.Technician as Technician
use rr_net.Technician.Events as TaskEvents
use rr_net.Technician.Tasks.{run-Agrees}
use rr_net.SuperAdmin as SuperAdmin
use rr_net.SuperAdmin.Events as AdminEvents

abbrev origin : Degrees
origin = record { is_negative = false; millionths = 0 }

abbrev odc : (id name : String) → Odc
odc id name = record {
  id = id;
  tenant_id = "t";
  name = name;
  latitude = origin;
  longitude = origin;
  capacity_info = none;
  notes = none;
  status = "ok";
  created_at = "";
  updated_at = "";
}

abbrev outage : OutageEvent
outage = record {
  id = "x";
  tenant_id = "t";
  node_type = "odc";
  node_id = "a";
  reason = "cut";
  reported_by = "u";
  reported_at = "";
  resolved_at = none;
  resolved_by = none;
  is_resolved = false;
  affected_nodes = none;
  created_at = "";
  updated_at = "";
}

-- Two boxes are created, one is updated, one deleted, and an outage is reported and resolved.
abbrev events : List MapEvents.Event
events =
    MapEvents.begins
    ∷ MapEvents.on_odc (MapEvents.created (ok (odc "a" "first")))
    ∷ MapEvents.on_odc (MapEvents.created (ok (odc "b" "second")))
    ∷ MapEvents.on_odc (MapEvents.updated "a" (ok (odc "a" "renamed")))
    ∷ MapEvents.on_outage (MapEvents.reported (ok outage))
    ∷ MapEvents.on_odc (MapEvents.deleted "b" (ok tt))
    ∷ MapEvents.on_outage (MapEvents.resolves "x" (ok tt))
    ∷ MapEvents.on_odc (MapEvents.created (threw (string "down")))
    ∷ []

run-refines_example :
    (contents (MapEvents.run Maps.initial events).odcs
      ≡ effects (contents Maps.initial.odcs) (MapEvents.odc_changes events))
    × (contents (MapEvents.run Maps.initial events).odps
        ≡ effects (contents Maps.initial.odps) (MapEvents.odp_changes events))
    × (contents (MapEvents.run Maps.initial events).client_locations
        ≡ effects
            (contents Maps.initial.client_locations)
            (MapEvents.client_location_changes events))
    × (contents (MapEvents.run Maps.initial events).outages
        ≡ effects (contents Maps.initial.outages) (MapEvents.outage_changes events))
unfolding Maps.initial
run-refines_example =
    run-refines Maps.initial events (refl, (refl, (refl, (tt, tt)))) tt tt (refl, ((λ o. refl), tt))

start_all-page_fetches_example :
    (start_all Maps.initial (page_fetches true true)).1 ≡ (if true then odcs else odcs) ∷ []
start_all-page_fetches_example =
    start_all-page_fetches Maps.initial true true (unfold Maps.initial in refl)

abbrev none_back : Nodes
none_back = record { odcs = threw (string "down"); odps = ok none; client_locations = ok (some []) }

abbrev task : TechnicianTask
task = record {
  id = "k";
  tenant_id = "t";
  technician_id = "u";
  assigned_by = "v";
  task_type = "repair";
  priority = "low";
  title = "Fix";
  description = "";
  location_type = none;
  location_id = none;
  address = none;
  latitude = none;
  longitude = none;
  status = pending;
  scheduled_at = none;
  started_at = none;
  completed_at = none;
  estimated_hours = none;
  actual_hours = none;
  notes = none;
  created_at = "";
  updated_at = "";
  approval_status = none;
  approval_feedback = none;
  approved_by = none;
  approved_at = none;
}

abbrev at_work : Technician.TechnicianState
at_work = record Technician.initial { tasks = record { items = task ∷ []; item = some task } }

abbrev steps : List TaskEvents.Event
steps =
    TaskEvents.started "k" (ok (record task { status = in_progress }))
    ∷ TaskEvents.cancels "k" (ok tt)
    ∷ []

run-Agrees_example : Agrees (TaskEvents.run at_work steps).tasks
run-Agrees_example = run-Agrees at_work steps (refl, ((λ t. refl), tt)) (tt, (tt, tt)) refl

completed_without_summary :
    (Technician.complete_task at_work "k" (ok task) (threw (string "down"))).1 ≡ ok task
unfolding Technician.complete_task
completed_without_summary = refl

abbrev plan : Plan
plan = record {
  id = "p";
  code = "basic";
  name = "Basic";
  description = none;
  price_monthly = 100;
  price_yearly = none;
  currency = "IDR";
  limits = [];
  features = "*" ∷ [];
  is_active = true;
  is_public = true;
  sort_order = 0;
  created_at = "";
  updated_at = "";
}

abbrev admin_events : List AdminEvents.Event
admin_events =
    AdminEvents.on_plan (AdminEvents.created (ok plan))
    ∷ AdminEvents.on_plan (AdminEvents.fetched (threw (string "down")))
    ∷ AdminEvents.assigned (ok tt)
    ∷ []
