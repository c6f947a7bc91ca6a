-- ===== src/Access.antt =====
-- Who may open a page: fe/src/components/guards/RoleGuard.tsx and CapabilityGuard.tsx, fe/src/components/
-- auth/AuthGuard.tsx, and the feature gate of fe/src/app/(tenant)/layout.tsx. The effects' redirects
-- are values.
pub mod Sidebar
pub mod Pages
pub mod Laws
pub mod Menu
use text.Mathlib.Text.{starts_with}
use rr_net.Prelude.{
  Bool, true, false, not, ◌&&◌, ◌||◌, List, [], ◌∷◌, Option, none, some, String, any, all, str_eq,
  if◌then◌else◌,
}
use rr_net.Types.{Role, technician, collector}
use rr_net.Roles.{Parse, Storage, get_effective_role, may_switch, same_role, is_role}

abbrev pub includes : List Role → Role → Bool
includes roles r = any (same_role r) roles

-- A direct match, or the technician as a collector.
unfoldable pub admits : List Role → Role → Bool
admits allowed r = includes allowed r || (same_role r technician && includes allowed collector)

abbrev admits_some : List Role → Option Role → Bool
admits_some allowed none = false
admits_some allowed (some r) = admits allowed r

-- `hasAccess` of `RoleGuard`, for the path that is open and the user's role.
unfoldable pub has_access : Parse → Storage → List Role → (pathname : String) → Option Role → Bool
has_access parse st allowed pathname none = false
has_access parse st allowed pathname (some role) =
    let effective = (get_effective_role parse st (some role)).0 in
    if not (is_role effective role)
    then str_eq pathname "/dashboard" || admits_some allowed effective
    else admits allowed role || may_switch role

pub data Shown : Type 0 where
  children fallback : Shown

-- What `RoleGuard` shows, and where it sends the user.
unfoldable pub role_guard :
    Parse
    → Storage
    → List Role
    → (redirect_to pathname : String) → Option Role
    → Shown × Option String
role_guard parse st allowed redirect_to pathname none = (fallback, none)
role_guard parse st allowed redirect_to pathname (some role) =
    if has_access parse st allowed pathname (some role)
    then (children, none)
    else (fallback, some redirect_to)

pub data Operator : Type 0 where
  and or : Operator

abbrev has : List String → String → Bool
has l s = any (str_eq s) l

-- `required` is the array, or the one text.
unfoldable pub capability_guard : (required : List String) → Operator → Option (List String) → Bool
capability_guard required op none = false
capability_guard required op (some []) = false
capability_guard required and (some (c ∷ cs)) = all (has (c ∷ cs)) required
capability_guard required or (some (c ∷ cs)) = any (has (c ∷ cs)) required

-- `none` shows nothing; the effect sends the user to the login page.
unfoldable pub auth_guard :
    (is_hydrated is_loading is_authenticated : Bool) → Option Shown × Option String
auth_guard false is_loading is_authenticated = (none, none)
auth_guard true true is_authenticated = (none, none)
auth_guard true false false = (none, some "/login")
auth_guard true false true = (some children, none)

-- What the dashboard's data say of the features: the plan's list and the map of those that are on.
pub record Features : Type 0 where
  pub plan : Option (List String)
  pub on : String → Bool

abbrev pub plan_features : Features → List String
plan_features f = elim f.plan [ none ↦ [] | some l ↦ l ]

abbrev pub has_wildcard : Features → Bool
has_wildcard f = has (plan_features f) "*"

abbrev pub is_enabled : Features → String → Bool
is_enabled f c = f.on c || has (plan_features f) c

-- The layout's `hasAnyFeature`.
unfoldable pub has_any_enabled : Features → List String → Bool
has_any_enabled f codes = if has_wildcard f then true else any (is_enabled f) codes

abbrev maps : List String
maps = "odp_maps" ∷ "client_maps" ∷ []

abbrev network : List String
network = "mikrotik_api_basic" ∷ "mikrotik_api" ∷ []

abbrev employees : List String
employees = "rbac_employee" ∷ "rbac_full" ∷ "rbac_basic" ∷ []

abbrev technician_basic_routes : List String
technician_basic_routes =
    "/technician/attendance" ∷ "/technician/reimbursement" ∷ "/technician/payslip"
    ∷ "/technician/time-off" ∷ "/technician/tasks" ∷ "/technician/activities" ∷ []

-- A gate that applies lets the user through when a feature is on.
abbrev passes : Features → (needed : Bool) → List String → Bool
passes f true codes = has_any_enabled f codes
passes f false codes = true

-- Whether the layout leaves the user on the page; otherwise it sends the user to the dashboard. No
-- data, or data being fetched, is `none`.
unfoldable pub stays : Option Features → (pathname : String) → Bool
stays none pathname = true
stays (some f) pathname =
    if starts_with pathname "/reports"
    then false
    else if starts_with pathname "/maps"
    then has_any_enabled f maps
    else if starts_with pathname "/technician"
        && (starts_with pathname "/technician/clients" || str_eq pathname "/technician/clients")
    then has_any_enabled f maps
    else if any (starts_with pathname) technician_basic_routes
    then true
    else passes f (starts_with pathname "/network") network
      && passes f (starts_with pathname "/employees") employees
      && passes f (starts_with pathname "/service-setup") ("service_packages" ∷ [])
