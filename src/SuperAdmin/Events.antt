-- ===== src/SuperAdmin/Events.antt =====
-- Sequences of what happens to the super-admin store, and the changes of each collection in them.
use rr_net.Prelude.{List, [], ◌∷◌, ◌++◌, String}
use rr_net.Types.{Answer, ok, or_else}
use rr_net.Types.Admin.{SuperAdminTenant, Plan, Addon, tenant_keyed, plan_keyed, addon_keyed}
use rr_net.Keyed.{Change, lists, opens, closes, appends, replaces, removes}
use rr_net.SuperAdmin.{
  SuperAdminState, begin, start_fetch, end_fetch_tenants, end_fetch_tenant, end_update_tenant,
  end_suspend_tenant, end_unsuspend_tenant, end_fetch_plans, end_fetch_plan, end_update_plan,
  end_create_plan, end_delete_plan, end_fetch_addons, end_fetch_addon, end_update_addon,
  end_create_addon, end_delete_addon, end_assign_plan_to_tenant, clear_tenant, clear_plan,
  clear_addon,
}

-- What happens to the plans or to the addons.
pub data Action (A : Type 0) : Type 0 where
  fetched : Answer (List A) → Action A
  got created : Answer A → Action A
  updated : String → Answer A → Action A
  deleted : String → Answer (Unit {0}) → Action A
  cleared : Action A

pub data TenantAction : Type 0 where
  fetched : Answer (List SuperAdminTenant) → TenantAction
  got : Answer SuperAdminTenant → TenantAction
  updated suspended unsuspended : String → Answer SuperAdminTenant → TenantAction
  cleared : TenantAction

pub data Event : Type 0 where
  begins starts_fetch : Event
  on_tenant : TenantAction → Event
  on_plan : Action Plan → Event
  on_addon : Action Addon → Event
  assigned : Answer (Unit {0}) → Event

abbrev pub perform_tenant : SuperAdminState → TenantAction → SuperAdminState
perform_tenant s (fetched a) = end_fetch_tenants s a
perform_tenant s (got a) = end_fetch_tenant s a
perform_tenant s (updated id a) = end_update_tenant s id a
perform_tenant s (suspended id a) = end_suspend_tenant s id a
perform_tenant s (unsuspended id a) = end_unsuspend_tenant s id a
perform_tenant s cleared = clear_tenant s

abbrev pub perform_plan : SuperAdminState → Action Plan → SuperAdminState
perform_plan s (fetched a) = end_fetch_plans s a
perform_plan s (got a) = end_fetch_plan s a
perform_plan s (created a) = end_create_plan s a
perform_plan s (updated id a) = end_update_plan s id a
perform_plan s (deleted id a) = end_delete_plan s id a
perform_plan s cleared = clear_plan s

abbrev pub perform_addon : SuperAdminState → Action Addon → SuperAdminState
perform_addon s (fetched a) = end_fetch_addons s a
perform_addon s (got a) = end_fetch_addon s a
perform_addon s (created a) = end_create_addon s a
perform_addon s (updated id a) = end_update_addon s id a
perform_addon s (deleted id a) = end_delete_addon s id a
perform_addon s cleared = clear_addon s

unfoldable pub perform : SuperAdminState → Event → SuperAdminState
perform s begins = begin s
perform s starts_fetch = or_else (start_fetch s) s
perform s (on_tenant a) = perform_tenant s a
perform s (on_plan a) = perform_plan s a
perform s (on_addon a) = perform_addon s a
perform s (assigned a) = end_assign_plan_to_tenant s a

unfoldable pub run : SuperAdminState → List Event → SuperAdminState
run s [] = s
run s (e ∷ es) = run (perform s e) es

-- What an action does to the finite map; a failure does nothing.
abbrev pub changes_of : {A : Type 0} → Action A → List (Change A)
changes_of (fetched (ok l)) = lists l ∷ []
changes_of (got (ok a)) = opens a ∷ []
changes_of (created (ok a)) = appends a ∷ []
changes_of (updated id (ok a)) = replaces id a ∷ []
changes_of (deleted id (ok u)) = removes id ∷ []
changes_of cleared = closes ∷ []
changes_of _ = []

abbrev pub tenant_changes_of : TenantAction → List (Change SuperAdminTenant)
tenant_changes_of (fetched (ok l)) = lists l ∷ []
tenant_changes_of (got (ok a)) = opens a ∷ []
tenant_changes_of (updated id (ok a)) = replaces id a ∷ []
tenant_changes_of (suspended id (ok a)) = replaces id a ∷ []
tenant_changes_of (unsuspended id (ok a)) = replaces id a ∷ []
tenant_changes_of cleared = closes ∷ []
tenant_changes_of _ = []

abbrev pub tenant_change : Event → List (Change SuperAdminTenant)
tenant_change (on_tenant a) = tenant_changes_of a
tenant_change _ = []

abbrev pub tenant_changes : List Event → List (Change SuperAdminTenant)
tenant_changes [] = []
tenant_changes (e ∷ es) = tenant_change e ++ tenant_changes es

abbrev pub plan_change : Event → List (Change Plan)
plan_change (on_plan a) = changes_of a
plan_change _ = []

abbrev pub plan_changes : List Event → List (Change Plan)
plan_changes [] = []
plan_changes (e ∷ es) = plan_change e ++ plan_changes es

abbrev pub addon_change : Event → List (Change Addon)
addon_change (on_addon a) = changes_of a
addon_change _ = []

abbrev pub addon_changes : List Event → List (Change Addon)
addon_changes [] = []
addon_changes (e ∷ es) = addon_change e ++ addon_changes es
