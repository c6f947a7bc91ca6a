-- ===== src/SuperAdmin.antt =====
-- fe/src/stores/superAdminStore.ts. An action is two steps, as other actions may run while it waits for
-- the backend: `begin` or `start_fetch`, and what follows the answer. An action that is not a fetch of a
-- list throws what the backend threw.
pub mod Events
pub mod Refinement
use rr_net.Prelude.{Bool, true, false, List, [], Option, none, some, String, if◌then◌else◌}
use rr_net.Errors.{Thrown, to_api_error}
use rr_net.Types.{Answer, ok, threw}
use rr_net.Types.Admin.{SuperAdminTenant, Plan, Addon, tenant_keyed, plan_keyed, addon_keyed}
use rr_net.Keyed.{Shelf, empty_shelf, put_all, open_item, close_item, append, replace, remove}

pub record SuperAdminState : Type 0 where
  pub tenants : Shelf SuperAdminTenant
  pub plans : Shelf Plan
  pub addons : Shelf Addon
  pub loading : Bool
  pub error : Option String

unfoldable pub initial : SuperAdminState
initial = record {
  tenants = empty_shelf;
  plans = empty_shelf;
  addons = empty_shelf;
  loading = false;
  error = none;
}

unfoldable pub begin : SuperAdminState → SuperAdminState
begin s = record s { loading = true; error = none }

unfoldable pub fail : Thrown → SuperAdminState → SuperAdminState
fail t s = record s { error = some (to_api_error t).message; loading = false }

-- The start of the fetch of a list: `none` when the store is loading, and nothing is asked of the
-- backend.
unfoldable pub start_fetch : SuperAdminState → Option SuperAdminState
start_fetch s = if s.loading then none else some (record s { loading = true; error = none })

unfoldable pub end_fetch_tenants :
    SuperAdminState → Answer (List SuperAdminTenant) → SuperAdminState
unfolding fail
end_fetch_tenants s (ok l) = record s { tenants = put_all l s.tenants; loading = false }
end_fetch_tenants s (threw t) = fail t s

unfoldable pub end_fetch_tenant : SuperAdminState → Answer SuperAdminTenant → SuperAdminState
unfolding fail
end_fetch_tenant s (ok a) = record s { tenants = open_item a s.tenants; loading = false }
end_fetch_tenant s (threw t) = fail t s

unfoldable pub end_update_tenant :
    SuperAdminState → String → Answer SuperAdminTenant → SuperAdminState
unfolding fail
end_update_tenant s id (ok a) = record s { tenants = replace id a s.tenants; loading = false }
end_update_tenant s id (threw t) = fail t s

unfoldable pub end_suspend_tenant :
    SuperAdminState → String → Answer SuperAdminTenant → SuperAdminState
unfolding fail
end_suspend_tenant s id (ok a) = record s { tenants = replace id a s.tenants; loading = false }
end_suspend_tenant s id (threw t) = fail t s

unfoldable pub end_unsuspend_tenant :
    SuperAdminState → String → Answer SuperAdminTenant → SuperAdminState
unfolding fail
end_unsuspend_tenant s id (ok a) = record s { tenants = replace id a s.tenants; loading = false }
end_unsuspend_tenant s id (threw t) = fail t s

abbrev pub clear_tenant : SuperAdminState → SuperAdminState
clear_tenant s = record s { tenants = close_item s.tenants }

unfoldable pub end_fetch_plans : SuperAdminState → Answer (List Plan) → SuperAdminState
unfolding fail
end_fetch_plans s (ok l) = record s { plans = put_all l s.plans; loading = false }
end_fetch_plans s (threw t) = fail t s

unfoldable pub end_fetch_plan : SuperAdminState → Answer Plan → SuperAdminState
unfolding fail
end_fetch_plan s (ok a) = record s { plans = open_item a s.plans; loading = false }
end_fetch_plan s (threw t) = fail t s

unfoldable pub end_update_plan : SuperAdminState → String → Answer Plan → SuperAdminState
unfolding fail
end_update_plan s id (ok a) = record s { plans = replace id a s.plans; loading = false }
end_update_plan s id (threw t) = fail t s

unfoldable pub end_create_plan : SuperAdminState → Answer Plan → SuperAdminState
unfolding fail
end_create_plan s (ok a) = record s { plans = append a s.plans; loading = false }
end_create_plan s (threw t) = fail t s

unfoldable pub end_delete_plan : SuperAdminState → String → Answer (Unit {0}) → SuperAdminState
unfolding fail
end_delete_plan s id (ok u) = record s { plans = remove id s.plans; loading = false }
end_delete_plan s id (threw t) = fail t s

abbrev pub clear_plan : SuperAdminState → SuperAdminState
clear_plan s = record s { plans = close_item s.plans }

unfoldable pub end_fetch_addons : SuperAdminState → Answer (List Addon) → SuperAdminState
unfolding fail
end_fetch_addons s (ok l) = record s { addons = put_all l s.addons; loading = false }
end_fetch_addons s (threw t) = fail t s

unfoldable pub end_fetch_addon : SuperAdminState → Answer Addon → SuperAdminState
unfolding fail
end_fetch_addon s (ok a) = record s { addons = open_item a s.addons; loading = false }
end_fetch_addon s (threw t) = fail t s

unfoldable pub end_update_addon : SuperAdminState → String → Answer Addon → SuperAdminState
unfolding fail
end_update_addon s id (ok a) = record s { addons = replace id a s.addons; loading = false }
end_update_addon s id (threw t) = fail t s

unfoldable pub end_create_addon : SuperAdminState → Answer Addon → SuperAdminState
unfolding fail
end_create_addon s (ok a) = record s { addons = append a s.addons; loading = false }
end_create_addon s (threw t) = fail t s

unfoldable pub end_delete_addon : SuperAdminState → String → Answer (Unit {0}) → SuperAdminState
unfolding fail
end_delete_addon s id (ok u) = record s { addons = remove id s.addons; loading = false }
end_delete_addon s id (threw t) = fail t s

abbrev pub clear_addon : SuperAdminState → SuperAdminState
clear_addon s = record s { addons = close_item s.addons }

unfoldable pub end_assign_plan_to_tenant : SuperAdminState → Answer (Unit {0}) → SuperAdminState
unfolding fail
end_assign_plan_to_tenant s (ok u) = record s { loading = false }
end_assign_plan_to_tenant s (threw t) = fail t s
