-- ===== src/Network.antt =====
-- fe/src/stores/networkStore.ts. Other actions may run while one waits for the backend, so an action
-- is two steps: `begin` or the start of a list's fetch, and what follows the answer. Every other action
-- starts with `begin`, and throws what the backend threw. An enumeration of the backend is its text.
pub mod Overlap
pub mod Routers
use rr_net.Prelude.{
  ℕ, Bool, true, false, not, List, [], ◌∷◌, ◌++◌, map, filter, Option, none, some, String, str_eq,
  if◌then◌else◌,
}
use rr_net.Errors.{Thrown, to_api_error}
use rr_net.Types.{Answer, ok, threw, or_else}

pub record Router : Type 0 where
  pub id : String
  pub tenant_id : String
  pub name : String
  pub description : Option String
  pub router_type : String
  pub host : String
  pub nas_ip : Option String
  pub port : ℕ
  pub username : String
  pub password : Option String
  pub api_port : Option ℕ
  pub api_use_tls : Bool
  pub connectivity_mode : String
  pub status : String
  pub last_seen : Option String
  pub is_default : Bool
  pub radius_enabled : Bool
  pub remote_access_enabled : Option Bool
  pub remote_access_port : Option ℕ
  pub vpn_username : Option String
  pub vpn_password : Option String
  pub vpn_script : Option String
  pub created_at : String
  pub updated_at : String

pub record NetworkProfile : Type 0 where
  pub id : String
  pub tenant_id : String
  pub router_id : Option String
  pub name : String
  pub description : Option String
  pub download_speed : ℕ
  pub upload_speed : ℕ
  pub burst_download : Option ℕ
  pub burst_upload : Option ℕ
  pub priority : ℕ
  pub shared_users : Option ℕ
  pub address_pool : Option String
  pub local_address : Option String
  pub remote_address : Option String
  pub dns_servers : Option String
  pub is_active : Bool
  pub created_at : String
  pub updated_at : String

pub record NetworkState : Type 0 where
  pub routers : List Router
  pub router : Option Router
  pub routers_loading : Bool
  pub profiles : List NetworkProfile
  pub profile : Option NetworkProfile
  pub profiles_loading : Bool
  pub loading : Bool
  pub error : Option String

unfoldable pub initial : NetworkState
initial = record {
  routers = [];
  router = none;
  routers_loading = false;
  profiles = [];
  profile = none;
  profiles_loading = false;
  loading = false;
  error = none;
}

unfoldable pub begin : NetworkState → NetworkState
begin s = record s { loading = true; error = none }

unfoldable pub fail : Thrown → NetworkState → NetworkState
fail t s = record s { error = some (to_api_error t).message; loading = false }

-- `none` when a fetch is running: nothing is asked of the backend.
unfoldable pub start_fetch_routers : NetworkState → Option NetworkState
start_fetch_routers s =
    if s.routers_loading
    then none
    else some (record s { routers_loading = true; loading = true; error = none })

unfoldable pub end_fetch_routers : NetworkState → Answer (Option (List Router)) → NetworkState
end_fetch_routers s (ok rs) = record s {
  routers = or_else rs [];
  routers_loading = false;
  loading = s.profiles_loading;
}
end_fetch_routers s (threw t) = record s {
  error = some (to_api_error t).message;
  routers_loading = false;
  loading = s.profiles_loading;
  routers = [];
}

unfoldable pub end_fetch_router : NetworkState → Answer Router → NetworkState
unfolding fail
end_fetch_router s (ok r) = record s { router = some r; loading = false }
end_fetch_router s (threw t) = fail t s

unfoldable pub end_create_router : NetworkState → Answer Router → NetworkState
unfolding fail
end_create_router s (ok r) = record s { routers = s.routers ++ r ∷ []; loading = false }
end_create_router s (threw t) = fail t s

abbrev pub has_id : String → Option Router → Bool
has_id id none = false
has_id id (some r) = str_eq r.id id

abbrev pub replace_router : String → Router → List Router → List Router
replace_router id r = map (λ q. if str_eq q.id id then r else q)

-- `updateRouter` and `toggleRemoteAccess`.
unfoldable pub end_update_router : NetworkState → String → Answer Router → NetworkState
unfolding fail
end_update_router s id (ok r) = record s {
  routers = replace_router id r s.routers;
  router = if has_id id s.router then some r else s.router;
  loading = false;
}
end_update_router s id (threw t) = fail t s

unfoldable pub end_delete_router : NetworkState → String → Answer (Unit {0}) → NetworkState
unfolding fail
end_delete_router s id (ok u) = record s {
  routers = filter (λ r. not (str_eq r.id id)) s.routers;
  router = if has_id id s.router then none else s.router;
  loading = false;
}
end_delete_router s id (threw t) = fail t s

unfoldable pub start_fetch_profiles : NetworkState → Option NetworkState
start_fetch_profiles s =
    if s.profiles_loading
    then none
    else some (record s { profiles_loading = true; loading = true; error = none })

unfoldable pub end_fetch_profiles :
    NetworkState → Answer (Option (List NetworkProfile)) → NetworkState
end_fetch_profiles s (ok ps) = record s {
  profiles = or_else ps [];
  profiles_loading = false;
  loading = s.routers_loading;
}
end_fetch_profiles s (threw t) = record s {
  error = some (to_api_error t).message;
  profiles_loading = false;
  loading = s.routers_loading;
  profiles = [];
}

unfoldable pub end_fetch_profile : NetworkState → Answer NetworkProfile → NetworkState
unfolding fail
end_fetch_profile s (ok p) = record s { profile = some p; loading = false }
end_fetch_profile s (threw t) = fail t s

unfoldable pub end_create_profile : NetworkState → Answer NetworkProfile → NetworkState
unfolding fail
end_create_profile s (ok p) = record s { profiles = s.profiles ++ p ∷ []; loading = false }
end_create_profile s (threw t) = fail t s

abbrev pub has_profile_id : String → Option NetworkProfile → Bool
has_profile_id id none = false
has_profile_id id (some p) = str_eq p.id id

unfoldable pub end_update_profile : NetworkState → String → Answer NetworkProfile → NetworkState
unfolding fail
end_update_profile s id (ok p) = record s {
  profiles = map (λ q. if str_eq q.id id then p else q) s.profiles;
  profile = if has_profile_id id s.profile then some p else s.profile;
  loading = false;
}
end_update_profile s id (threw t) = fail t s

unfoldable pub end_delete_profile : NetworkState → String → Answer (Unit {0}) → NetworkState
unfolding fail
end_delete_profile s id (ok u) = record s {
  profiles = filter (λ p. not (str_eq p.id id)) s.profiles;
  profile = if has_profile_id id s.profile then none else s.profile;
  loading = false;
}
end_delete_profile s id (threw t) = fail t s

-- The last step of `testRouterConnection` and `disconnectRouter`, which fetch the router and the list
-- of routers before it.
unfoldable pub settle : NetworkState → Answer (Unit {0}) → NetworkState
unfolding fail
settle s (ok u) = record s { loading = false }
settle s (threw t) = fail t s

abbrev pub clear_router : NetworkState → NetworkState
clear_router s = record s { router = none }

abbrev pub clear_profile : NetworkState → NetworkState
clear_profile s = record s { profile = none }
