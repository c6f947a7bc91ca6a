-- ===== src/Tests/Network.antt =====
-- The network store of fe/src/stores/networkStore.ts: both lists on their way, and one router.
use rr_net.Prelude.{◌≤◌, ◌≡◌, ◌↔◌, refl, true, false, List, [], ◌∷◌, none, some}
use rr_net.Types.{ok, threw}
use rr_net.Errors.{string}
use rr_net.Network.{Router, NetworkState, initial, start_fetch_profiles, end_fetch_router, fail}
use rr_net.Network.Overlap.{
  Event, asks_routers, asks_profiles, gets_routers, gets_router, grounded, run, perform, run-single,
}

abbrev both : List Event
both = asks_routers ∷ asks_profiles ∷ asks_routers ∷ gets_routers (ok none) ∷ []

run-single_example :
    let f = run grounded both in
    (f.routers_out ≤ 1)
    × (f.profiles_out ≤ 1)
    × ((f.store.routers_loading ≡ true) ↔ (f.routers_out ≡ 1))
    × ((f.store.profiles_loading ≡ true) ↔ (f.profiles_out ≡ 1))
run-single_example = run-single both

-- The answer to one router clears the common flag while the profiles are still on their way.
one_router :
    (run grounded (asks_profiles ∷ gets_router (threw (string "offline")) ∷ [])).store.loading
    ≡ false
unfolding run perform initial start_fetch_profiles end_fetch_router fail
one_router = refl

abbrev core : Router
core = record {
  id = "r1";
  tenant_id = "t";
  name = "core";
  description = none;
  router_type = "mikrotik";
  host = "10.0.0.1";
  nas_ip = none;
  port = 8728;
  username = "admin";
  password = none;
  api_port = none;
  api_use_tls = false;
  connectivity_mode = "direct";
  status = "online";
  last_seen = none;
  is_default = true;
  radius_enabled = false;
  remote_access_enabled = none;
  remote_access_port = none;
  vpn_username = none;
  vpn_password = none;
  vpn_script = none;
  created_at = "2025-01-01";
  updated_at = "2025-01-01";
}

abbrev owning : NetworkState
owning = record initial { routers = core ∷ []; router = some core }
