-- ===== src/Tests/Users.antt =====
-- The roles of fe/src/lib/utils/roleContext.ts and the sessions of fe/src/stores/authStore.ts, with one
-- user.
use rr_net.Prelude.{refl, List, [], ◌∷◌, none, some, String}
use rr_net.Errors.{Thrown, string}
use rr_net.Types.{ok, threw, admin, technician, User, Tenant, LoginResponse}
use rr_net.Roles.{RoleContext, Parse}
use rr_net.Roles.Laws as RoleLaws
use rr_net.Auth.{World, Snapshot, AuthState, login, load, logout, refresh, snapshot_of}
use rr_net.Auth.Reload.{load-login, IsRestored}
use rr_net.Auth.Sessions as Sessions
use rr_net.Auth.Sessions.{refresh_lem, is_ok}

abbrev offline : Thrown
offline = string "offline"

abbrev acting : RoleContext
acting = RoleLaws.switched "now" admin technician

abbrev stored : RoleContext → String
stored c = "{}"

abbrev parse : Parse
parse text = some acting

abbrev tenant : Tenant
tenant = record { id = "t"; name = "Acme"; slug = "acme"; status = "active"; billing_status = none }

abbrev user : User
user = record {
  id = "u1";
  tenant_id = some "t";
  email = "a@acme";
  name = "A";
  phone = none;
  avatar_url = none;
  role = admin;
  capabilities = none;
}

abbrev granted : LoginResponse
granted = record {
  access_token = "t0";
  refresh_token = "r0";
  expires_in = 900;
  user = user;
  tenant = some tenant;
}

abbrev outside : World
outside = logout (record {
  auth = rr_net.Auth.initial;
  access_token = none;
  api_slug = none;
  stored = none;
  role_context = none;
})

abbrev written : Snapshot → String
written s = "{}"

abbrev read : String → Snapshot
read text = snapshot_of (login written outside none (ok granted)).0.auth

load-login_example :
    IsRestored
      (login written outside none (ok granted)).0
      (load read (login written outside none (ok granted)).0)
load-login_example = load-login read written outside none granted (refl, refl) refl

abbrev acts : List Sessions.Action
acts = Sessions.log_in none (ok granted) ∷ Sessions.renew (threw offline) ∷ Sessions.log_out ∷ []
