-- ===== src/Access/Laws.antt =====
-- The page guard under a switched role, and the menu's strict mode.
use rr_net.Prelude.{
  ◌≡◌, refl, sym, ap, ◌∙◌, ==_iff, ℕ, ◌==◌, if◌then◌else◌, Bool, true, false, ◌||◌, List, [], ◌∷◌,
  Option, none, some, String, str_eq, all, arith, Bool-cases, inl, inr,
}
use rr_net.Types.{Role, super_admin, owner, admin, hr, finance, technician, collector, client}
use rr_net.Roles.{RoleContext, Parse, Storage, may_switch, same_role, role_code, set_active_role}
use rr_net.Roles.Laws.{switched, RoundTrips, no_escalation, set_active_role_lem}
use rr_net.Access.{has_access, includes}
use rr_net.Access.Sidebar.{NavItem, has_role_access, on_list, hidden_admin_only}

of_code : ℕ → Role
of_code n =
    if n == 0
    then super_admin
    else if n == 1
    then owner
    else if n == 2
    then admin
    else if n == 3
    then hr
    else if n == 4
    then finance
    else if n == 5
    then technician
    else if n == 6
    then collector
    else client

of_code-role_code : (r : Role) → of_code (role_code r) ≡ r
unfolding of_code
of_code-role_code super_admin = refl
of_code-role_code owner = refl
of_code-role_code admin = refl
of_code-role_code hr = refl
of_code-role_code finance = refl
of_code-role_code technician = refl
of_code-role_code collector = refl
of_code-role_code client = refl

pub same_role-≡ : (a b : Role) → same_role a b ≡ true → a ≡ b
same_role-≡ a b h =
    sym (of_code-role_code a)
    ∙ ap of_code (ground (arith, ==_iff (role_code a) (role_code b)))
    ∙ of_code-role_code b

same_role-sym : (a b : Role) → same_role a b ≡ same_role b a
same_role-sym a b =
    ground (arith, ==_iff (role_code a) (role_code b), ==_iff (role_code b) (role_code a))

same_role-may_switch :
    (a b : Role) → may_switch a ≡ true → may_switch b ≡ false → same_role a b ≡ false
same_role-may_switch a b ma mb = elim (Bool-cases (same_role a b)) [
  | inl e ↦ ground (arith, ap may_switch (same_role-≡ a b e))
  | inr e ↦ e
]

switch-may_switch :
    (stringify : RoleContext → String) (now : String) (original target : Role) (st : Storage)
    → set_active_role stringify now original target ≡ some st
    → may_switch original ≡ true
unfolding set_active_role
switch-may_switch stringify now original target st e = elim (Bool-cases (may_switch original)) [
  | inl m ↦ m
  | inr m ↦ ground arith
]

-- After an admin or an owner has switched to a role of other users, every page but the dashboard is
-- open to them exactly when it is open to a user of that role, whatever roles the page allows; the
-- dashboard is open to them. JSON is to read back the context.
pub has_access-set_active_role :
    (parse : Parse) (stringify : RoleContext → String) (now : String) (original target : Role)
    (st st' : Storage) (allowed : List Role) (pathname : String)
    → RoundTrips parse stringify (switched now original target)
    → set_active_role stringify now original target ≡ some st
    → may_switch target ≡ false
    → has_access parse st allowed pathname (some original)
      ≡ (str_eq pathname "/dashboard" || has_access parse st' allowed pathname (some target))
unfolding has_access
has_access-set_active_role parse stringify now original target st st' allowed pathname w e d =
    let m = switch-may_switch stringify now original target st e in
    let o = same_role-may_switch original target m d in
    let t = set_active_role_lem parse stringify now original target target st w e o in
    let n = no_escalation parse st' target d in
    rw (t.1, n.0, same_role-sym target original, o) (ground arith)

includes-all :
    (p : Role → Bool) (roles : List Role) (r : Role)
    → all p roles ≡ true
    → includes roles r ≡ true
    → p r ≡ true
includes-all p [] r a h = ground arith
includes-all p (x ∷ roles) r a h = elim (Bool-cases (same_role r x)) [
  | inl e ↦ rw (same_role-≡ r x e) (ground arith)
  | inr e ↦ ground (arith, includes-all p roles r)
]

on_list-hidden :
    (roles : List Role) (r : Role) → on_list roles r ≡ true → hidden_admin_only roles r ≡ false
on_list-hidden [] r h = refl
on_list-hidden (a ∷ roles) r h = elim (Bool-cases (all may_switch (a ∷ roles))) [
  | inl m ↦ ground (
    arith,
    includes-all may_switch (a ∷ roles) r m,
    includes-all may_switch (a ∷ roles) collector m,
  )
  | inr m ↦ rw m refl
]

-- The strict mode changes nothing: a switched admin or owner sees an item exactly when a user whose
-- own role is the effective one does.
pub has_role_access-strict :
    (i : NavItem) (role : Option Role) (original : Option Role)
    → has_role_access i role true original ≡ has_role_access i role false none
unfolding has_role_access
has_role_access-strict i none original = refl
has_role_access-strict i (some r) original = elim (Bool-cases (on_list i.allowed_roles r)) [
  | inl o ↦ rw (o, on_list-hidden i.allowed_roles r o) (ground arith)
  | inr o ↦ ground arith
]
