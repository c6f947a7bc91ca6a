-- ===== src/Roles/Laws.antt =====
-- Who can take another role, and who is affected.
use rr_net.Prelude.{◌≡◌, refl, true, false, some, String, arith, truthy, Bool-cases, inl, inr}
use rr_net.Types.{Role}
use rr_net.Roles.{
  RoleContext, Parse, Storage, may_switch, same_role, get_effective_role, set_active_role, use_role,
  is_role_switched, read, of_stored,
}

-- A user who is neither admin nor owner keeps the original role, whatever the storage holds, and is
-- offered no switch.
pub no_escalation :
    (parse : Parse) (st : Storage) (r : Role)
    → may_switch r ≡ false
    → (get_effective_role parse st (some r) ≡ (some r, st))
      × ((use_role parse st (some r)).can_switch_role ≡ false)
      × (is_role_switched parse st (some r) ≡ false)
unfolding get_effective_role use_role is_role_switched
no_escalation parse st r h =
    (rw (h, get_effective_role) refl, ground arith, rw (h, get_effective_role) (ground arith))

abbrev pub switched : (now : String) → (original target : Role) → RoleContext
switched now original target = record {
  original_role = original;
  active_role = some target;
  switched_from = original;
  switched_at = now;
}

-- JSON reads back what it wrote, which is not the empty text.
abbrev pub RoundTrips : Parse → (RoleContext → String) → RoleContext → Type 0
RoundTrips parse stringify c = (parse (stringify c) ≡ some c) × (truthy (stringify c) ≡ true)

-- Switching succeeds only for an admin or an owner. Where JSON reads back the context, the user
-- then has the target role, a user of a different original role in the same browser keeps that
-- role, and the user may still switch again.
pub set_active_role_lem :
    (parse : Parse) (stringify : RoleContext → String) (now : String) (original target other : Role)
    (st : Storage)
    → RoundTrips parse stringify (switched now original target)
    → set_active_role stringify now original target ≡ some st
    → same_role original other ≡ false
    → (may_switch original ≡ true)
      × ((get_effective_role parse st (some original)).0 ≡ some target)
      × ((get_effective_role parse st (some other)).0 ≡ some other)
      × ((use_role parse st (some original)).can_switch_role ≡ true)
unfolding set_active_role get_effective_role use_role read of_stored
set_active_role_lem parse stringify now original target other st written e d =
    elim (Bool-cases (may_switch original)) [ inl m ↦ ground arith | inr m ↦ ground arith ]
