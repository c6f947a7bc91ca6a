-- ===== src/Roles.antt =====
-- fe/src/lib/utils/roleContext.ts and fe/src/lib/hooks/useRole.ts. The storage is the text under
-- one key; `parse` and `stringify` are JSON's, with `none` for the exception.
pub mod Laws
use rr_net.Prelude.{
  ℕ, Bool, true, false, not, ◌&&◌, ◌||◌, Option, none, some, String, truthy, ◌==◌, if◌then◌else◌,
}
use rr_net.Types.{Role, super_admin, owner, admin, hr, finance, technician, collector, client}

-- A stored context may lack its active role.
pub record RoleContext : Type 0 where
  pub original_role : Role
  pub active_role : Option Role
  pub switched_from : Role
  pub switched_at : String

abbrev pub role_code : Role → ℕ
role_code super_admin = 0
role_code owner = 1
role_code admin = 2
role_code hr = 3
role_code finance = 4
role_code technician = 5
role_code collector = 6
role_code client = 7

abbrev pub same_role : Role → Role → Bool
same_role a b = role_code a == role_code b

abbrev pub may_switch : Role → Bool
may_switch r = same_role r admin || same_role r owner

abbrev pub Parse : Type 0
Parse = String → Option RoleContext

-- The storage, `none` where the key is missing.
abbrev pub Storage : Type 0
Storage = Option String

abbrev pub clear_role_context : Storage
clear_role_context = none

active_of : Role → RoleContext → Role
active_of original c = elim c.active_role [
  | none ↦ original
  | some r ↦ if same_role c.original_role original then r else original
]

-- What `localStorage.getItem` and `JSON.parse` give: nothing, an exception, or a context.
pub data Stored : Type 0 where
  absent unreadable : Stored
  context : RoleContext → Stored

abbrev parsed : Option RoleContext → Stored
parsed none = unreadable
parsed (some c) = context c

unfoldable pub read : Parse → Storage → Stored
read parse none = absent
read parse (some text) = if truthy text then parsed (parse text) else absent

of_stored : Role → Stored → Storage → Role × Storage
unfolding active_of
of_stored original absent st = (original, st)
of_stored original unreadable st = (original, clear_role_context)
of_stored original (context c) st = (active_of original c, st)

-- The effective role, and the storage: an unreadable context is cleared.
unfoldable pub get_effective_role : Parse → Storage → Option Role → Option Role × Storage
unfolding of_stored read
get_effective_role parse st none = (none, st)
get_effective_role parse st (some original) =
    if may_switch original
    then (let (r, st') = of_stored original (read parse st) st in (some r, st'))
    else (some original, st)

-- `none` is the thrown "Only admin can switch roles".
unfoldable pub set_active_role :
    (RoleContext → String) → (now : String) → Role → Role → Option Storage
set_active_role stringify now original target =
    if may_switch original
    then some (
        some (
          stringify (record {
            original_role = original;
            active_role = some target;
            switched_from = original;
            switched_at = now;
          })))
    else none

abbrev context_of : Stored → Storage → Option RoleContext × Storage
context_of absent st = (none, st)
context_of unreadable st = (none, clear_role_context)
context_of (context c) st = (some c, st)

unfoldable pub get_role_context : Parse → Storage → Option RoleContext × Storage
unfolding read
get_role_context parse st = context_of (read parse st) st

abbrev pub is_role : Option Role → Role → Bool
is_role none r = false
is_role (some a) r = same_role a r

unfoldable pub is_role_switched : Parse → Storage → Option Role → Bool
is_role_switched parse st none = false
is_role_switched parse st (some original) =
    not (is_role (get_effective_role parse st (some original)).0 original)

-- What the hook `useRole` gives.
pub record RoleView : Type 0 where
  pub role : Option Role
  pub original_role : Option Role
  pub is_technician : Bool
  pub is_admin : Bool
  pub is_collector : Bool
  pub is_finance : Bool
  pub is_hr : Bool
  pub can_manage_tasks : Bool
  pub can_view_all_tasks : Bool
  pub can_view_all_activities : Bool
  pub role_context : Option RoleContext
  pub switched : Bool
  pub can_switch_role : Bool

abbrev may_be_admin : Option Role → Bool
may_be_admin r = is_role r admin || is_role r owner

unfoldable pub use_role : Parse → Storage → Option Role → RoleView
use_role parse st original =
    let effective = (get_effective_role parse st original).0 in
    record {
      role = effective;
      original_role = original;
      is_technician = is_role effective technician;
      is_admin = may_be_admin effective;
      is_collector = is_role effective collector;
      is_finance = is_role effective finance;
      is_hr = is_role effective hr;
      can_manage_tasks = may_be_admin effective;
      can_view_all_tasks = may_be_admin effective;
      can_view_all_activities = may_be_admin effective;
      role_context = (get_role_context parse st).0;
      switched = is_role_switched parse st original;
      can_switch_role = may_be_admin original;
    }
