-- ===== src/Access/Sidebar.antt =====
-- fe/src/components/layout/Sidebar.tsx: the menu's items and which of them a user sees.
use rr_net.Prelude.{
  Bool, true, false, not, ◌&&◌, ◌||◌, List, [], ◌∷◌, Option, none, some, String, any, all, filter,
  if◌then◌else◌,
}
use rr_net.Types.{Role, owner, admin, hr, finance, technician, collector, client}
use rr_net.Roles.{Parse, Storage, may_switch, use_role}
use rr_net.Access.{Features, has_wildcard, includes}

-- Without the icon. An absent list is the empty one, which `hasAnyFeature` and `hasRoleAccess` treat
-- alike.
pub record NavItem : Type 0 where
  pub label : String
  pub href : String
  pub required_any_features : List String
  pub implemented : Option Bool
  pub allowed_roles : List Role
  pub restricted_roles : List Role

abbrev item : (label href : String) → List String → List Role → List Role → NavItem
item label href features allowed restricted = record {
  label = label;
  href = href;
  required_any_features = features;
  implemented = none;
  allowed_roles = allowed;
  restricted_roles = restricted;
}

abbrev mikrotik : List String
mikrotik = "mikrotik_api_basic" ∷ "mikrotik_api" ∷ []

abbrev maps : List String
maps = "odp_maps" ∷ "client_maps" ∷ []

abbrev rbac : List String
rbac = "rbac_employee" ∷ "rbac_full" ∷ "rbac_basic" ∷ []

abbrev office : List Role
office = hr ∷ finance ∷ []

abbrev admins : List Role
admins = owner ∷ admin ∷ []

abbrev pub nav_items : List NavItem
nav_items =
    item "Dashboard" "/dashboard" [] [] office
    ∷ item "Clients" "/clients" [] [] (client ∷ office)
    ∷ item "Billing" "/billing" [] [] (technician ∷ client ∷ office)
    ∷ item "Settlement" "/settlement" [] (owner ∷ admin ∷ finance ∷ []) (technician ∷ hr ∷ [])
    ∷ item "Network" "/network" mikrotik admins office
    ∷ item "Vouchers" "/vouchers" mikrotik admins office
    ∷ item "PPPoE" "/pppoe" mikrotik admins office
    ∷ item "Maps" "/maps" maps (owner ∷ admin ∷ technician ∷ []) office
    ∷ item "HR Dashboard" "/hr/dashboard" rbac (hr ∷ []) []
    ∷ item "Employees" "/hr/employees" rbac (hr ∷ []) []
    ∷ item "Attendance" "/hr/attendance" rbac (hr ∷ []) []
    ∷ item "Leave Requests" "/hr/leave-requests" rbac (hr ∷ []) []
    ∷ item "Payroll" "/hr/payroll" rbac (hr ∷ []) []
    ∷ item "HR Reports" "/hr/reports" rbac (hr ∷ []) []
    ∷ item "Finance Dashboard" "/finance/dashboard" [] (finance ∷ []) []
    ∷ item "Invoices" "/finance/invoices" [] (finance ∷ []) []
    ∷ item "Payments" "/finance/payments" [] (finance ∷ []) []
    ∷ item "Reports" "/finance/reports" [] (finance ∷ []) []
    ∷ item "Deposits" "/finance/deposits" [] (finance ∷ []) []
    ∷ item "Employees" "/employees" rbac admins (hr ∷ [])
    ∷ item "Service Setup" "/service-setup" ("service_packages" ∷ []) admins office
    ∷ item "Technician" "/technician/tasks" maps (owner ∷ admin ∷ technician ∷ []) office
    ∷ item "Collector" "/collector" [] (technician ∷ []) office
    ∷ item "WhatsApp" "/whatsapp" [] admins office
    ∷ (record {
      label = "Reports";
      href = "/reports";
      required_any_features =
          "payment_reporting_advanced" ∷ "dashboard_pendapatan" ∷ "reports_advanced" ∷ [];
      implemented = some false;
      allowed_roles = admins;
      restricted_roles = office;
    })
    ∷ item "Settings" "/settings" [] (owner ∷ []) office
    ∷ []

-- `data` may not be there yet.
unfoldable pub has_any_feature : Option Features → List String → Bool
has_any_feature dashboard [] = true
has_any_feature none (c ∷ cs) = false
has_any_feature (some f) (c ∷ cs) = has_wildcard f || any f.on (c ∷ cs)

-- The list is absent or empty, or the role is in it, or a technician takes a collector's place.
abbrev pub on_list : List Role → Role → Bool
on_list [] r = true
on_list (a ∷ rest) r =
    includes (a ∷ rest) r || (rr_net.Roles.same_role r technician && includes (a ∷ rest) collector)

-- The item is for admins and owners alone, and the role is neither.
abbrev pub hidden_admin_only : List Role → Role → Bool
hidden_admin_only [] r = false
hidden_admin_only (a ∷ rest) r = all may_switch (a ∷ rest) && not (may_switch r)

abbrev pub by_admin : Option Role → Bool
by_admin none = false
by_admin (some r) = may_switch r

unfoldable pub has_role_access :
    NavItem → Option Role → (is_switched : Bool) → (original : Option Role) → Bool
has_role_access i none is_switched original = false
has_role_access i (some role) is_switched original =
    let strict = is_switched && by_admin original in
    if strict && not (on_list i.allowed_roles role)
    then false
    else if strict && hidden_admin_only i.allowed_roles role
    then false
    else if not (on_list i.allowed_roles role)
    then false
    else not (includes i.restricted_roles role)

abbrev pub is_unimplemented : Option Bool → Bool
is_unimplemented none = false
is_unimplemented (some b) = not b

unfoldable pub is_visible : Parse → Storage → Option Features → Option Role → NavItem → Bool
is_visible parse st dashboard user i =
    let view = use_role parse st user in
    not (is_unimplemented i.implemented)
    && has_any_feature dashboard i.required_any_features
    && has_role_access i view.role view.switched view.original_role

unfoldable pub visible_nav_items : Parse → Storage → Option Features → Option Role → List NavItem
visible_nav_items parse st dashboard user = filter (is_visible parse st dashboard user) nav_items
