-- ===== src/SuperAdmin/Refinement.antt =====
-- The super-admin store against three finite maps.
use rr_net.Prelude.{List}
use rr_net.Types.Admin.{SuperAdminTenant, Plan, Addon, tenant_keyed, plan_keyed, addon_keyed}
use rr_net.Keyed.{Shelf, changes}
use rr_net.SuperAdmin.{SuperAdminState}
use rr_net.SuperAdmin.Events.{Event, tenant_changes, plan_changes, addon_changes}

abbrev Shelves : Type 0
Shelves = Shelf SuperAdminTenant × Shelf Plan × Shelf Addon

abbrev shelves : SuperAdminState → Shelves
shelves s = (s.tenants, s.plans, s.addons)

-- The three collections do not interfere: each is what its own changes make of it.
abbrev changed : SuperAdminState → List Event → Shelves
changed s es = (
  changes s.tenants (tenant_changes es),
  changes s.plans (plan_changes es),
  changes s.addons (addon_changes es),
)
