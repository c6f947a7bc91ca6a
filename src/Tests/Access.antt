-- ===== src/Tests/Access.antt =====
-- The guards of fe/src/components/ and the menu of fe/src/components/layout/Sidebar.tsx, for an owner who
-- acts as a technician.
use rr_net.Prelude.{◌≡◌, refl, true, false, ◌||◌, [], ◌∷◌, none, some, String, all, map, str_eq}
use rr_net.Types.{owner, technician, collector, finance, super_admin}
use rr_net.Roles.{RoleContext, Parse, get_effective_role, set_active_role}
use rr_net.Roles.Laws as RoleLaws
use rr_net.Access.{Features, has_access, capability_guard, and, or, auth_guard, role_guard}
use rr_net.Access.Sidebar.{NavItem, nav_items, visible_nav_items, is_visible, has_role_access}
use rr_net.Access.Pages.{opens}
use rr_net.Access.Laws.{has_access-set_active_role}
use rr_net.Access.Menu.{visible_nav_items-opens}

abbrev acting : RoleContext
acting = RoleLaws.switched "now" owner technician

abbrev parse : Parse
parse text = some acting

abbrev stored : RoleContext → String
stored c = "{}"

abbrev plan : Features
plan = record { plan = some ("odp_maps" ∷ []); on = str_eq "odp_maps" }

has_access-set_active_role_example :
    has_access parse (some "{}") (finance ∷ []) "/billing" (some owner) ≡ (
      str_eq "/billing" "/dashboard"
      || has_access parse none (finance ∷ []) "/billing" (some technician))
has_access-set_active_role_example =
    has_access-set_active_role parse stored "now" owner technician (some "{}") none (finance ∷ [])
      "/billing" (refl, refl) (unfold set_active_role in refl) refl

visible_nav_items-opens_example :
    all
      (λ i. opens parse (some "{}") (some plan) (some owner) i.href)
      (visible_nav_items parse (some "{}") (some plan) (some owner))
    ≡ true
visible_nav_items-opens_example =
    visible_nav_items-opens parse (some "{}") (some plan) owner technician
      (unfold get_effective_role in refl) refl

menu :
    map (λ i. i.label) (visible_nav_items parse (some "{}") (some plan) (some owner))
    ≡ "Dashboard" ∷ "Clients" ∷ "Maps" ∷ "Technician" ∷ "Collector" ∷ []
unfolding visible_nav_items is_visible rr_net.Roles.use_role get_effective_role
    rr_net.Roles.is_role_switched rr_net.Access.Sidebar.has_any_feature has_role_access
menu = refl

-- A super-admin sees the billing item, and the page turns them away.
super_admin_billing : opens parse none none (some super_admin) "/billing" ≡ false
unfolding opens has_access get_effective_role rr_net.Access.stays rr_net.Access.Pages.page_guard
    rr_net.Access.admits
super_admin_billing = refl

capabilities :
    (capability_guard ("a" ∷ "b" ∷ []) and (some ("a" ∷ [])) ≡ false)
    × (capability_guard ("a" ∷ "b" ∷ []) or (some ("a" ∷ [])) ≡ true)
unfolding capability_guard
capabilities = (refl, refl)

redirected :
    (role_guard parse none (finance ∷ []) "/dashboard" "/finance" (some collector)
      ≡ (rr_net.Access.fallback, some "/dashboard"))
    × (auth_guard true false false ≡ (none, some "/login"))
unfolding role_guard auth_guard has_access get_effective_role rr_net.Access.admits
redirected = (refl, refl)
