-- ===== src/Auth.antt =====
-- fe/src/stores/authStore.ts, in a browser. Beside the store's state the world holds what the store
-- writes to: the two variables of the API client, the store's entry in `localStorage` and the role
-- context. `stringify` and `parse` are JSON's; an unreadable entry parses to the empty snapshot.
pub mod Sessions
pub mod Reload
use rr_net.Prelude.{Bool, true, false, not, ◌&&◌, Option, none, some, String, truthy, if◌then◌else◌}
use rr_net.Errors.{Thrown, response_error, has_text}
use rr_net.Types.{Answer, ok, threw, User, Tenant, LoginResponse, or_else, or_first}

pub record AuthState : Type 0 where
  pub user : Option User
  pub tenant : Option Tenant
  pub tenant_slug : Option String
  pub token : Option String
  pub refresh_token : Option String
  pub is_loading : Bool
  pub error : Option String
  pub is_authenticated : Bool
  pub is_hydrated : Bool
  pub ready : Bool

-- What `persistState` writes.
pub record Snapshot : Type 0 where
  pub token : Option String
  pub refresh_token : Option String
  pub tenant_slug : Option String
  pub tenant : Option Tenant
  pub user : Option User
  pub is_authenticated : Bool

pub record World : Type 0 where
  pub auth : AuthState
  pub access_token : Option String
  pub api_slug : Option String
  pub stored : Option String
  pub role_context : Option String

abbrev pub no_snapshot : Snapshot
no_snapshot = record {
  token = none;
  refresh_token = none;
  tenant_slug = none;
  tenant = none;
  user = none;
  is_authenticated = false;
}

abbrev pub initial : AuthState
initial = record {
  user = none;
  tenant = none;
  tenant_slug = none;
  token = none;
  refresh_token = none;
  is_loading = false;
  error = none;
  is_authenticated = false;
  is_hydrated = false;
  ready = false;
}

abbrev pub snapshot_of : AuthState → Snapshot
snapshot_of s = record {
  token = s.token;
  refresh_token = s.refresh_token;
  tenant_slug = s.tenant_slug;
  tenant = s.tenant;
  user = s.user;
  is_authenticated = s.is_authenticated;
}

abbrev slug_of : Option Tenant → Option String
slug_of none = none
slug_of (some t) = some t.slug

unfoldable pub set_tenant_slug : Option String → World → World
set_tenant_slug slug w = record w { auth = record w.auth { tenant_slug = slug } }

module _ (stringify : Snapshot → String) where
  pub persist_state : World → World
  persist_state w = record w { stored = some (stringify (snapshot_of w.auth)) }

  -- `authService.login` gives the client the slug, or none for an empty one, before the request, and the
  -- token only after it. What else happens while the request is on its way is another action.
  unfoldable pub login : World → Option String → Answer LoginResponse → World × Answer (Unit {0})
  unfolding persist_state
  login w slug (ok res) = (
    persist_state (record w {
      auth = record w.auth {
        user = some res.user;
        tenant = res.tenant;
        token = some res.access_token;
        refresh_token = some res.refresh_token;
        tenant_slug = or_first (slug_of res.tenant) slug;
        is_loading = false;
        error = none;
        is_authenticated = true;
        ready = true;
      };
      access_token = some res.access_token;
      api_slug = slug;
    }),
    ok tt,
  )
  login w slug (threw t) = (
    record w {
      auth = record w.auth {
        error = some (or_else (response_error t) "Login failed");
        is_loading = false;
      };
      api_slug = if has_text slug then slug else none;
    },
    threw t,
  )

  -- The state without a session, after a refresh that is not possible or fails.
  pub drop_session : World → World
  unfolding persist_state
  drop_session w = persist_state (record w {
    auth = record w.auth {
      token = none;
      refresh_token = none;
      user = none;
      is_authenticated = false;
      ready = true;
    };
    access_token = none;
  })

  -- `refresh` throws nothing.
  unfoldable pub refresh : World → Answer LoginResponse → World
  unfolding persist_state drop_session
  refresh w a =
      if has_text w.auth.refresh_token
      then (elim a [
        | ok res ↦ persist_state (record w {
          auth = record w.auth {
            user = some res.user;
            token = some res.access_token;
            refresh_token = some res.refresh_token;
            is_authenticated = true;
            ready = true;
          };
          access_token = some res.access_token;
        })
        | threw t ↦ drop_session w
      ])
      else drop_session w

  -- The second callback that the store gives the API client.
  unfoldable pub on_token_refreshed : World → String → String → World
  unfolding persist_state
  on_token_refreshed w token refresh_token = persist_state (record w {
    auth = record w.auth { token = some token; refresh_token = some refresh_token };
    access_token = some token;
  })

-- The answer of the backend, an exception or not, makes no difference.
unfoldable pub logout : World → World
logout w = record {
  auth = record {
    user = none;
    tenant = none;
    tenant_slug = none;
    token = none;
    refresh_token = none;
    is_loading = false;
    error = none;
    is_authenticated = false;
    is_hydrated = true;
    ready = true;
  };
  access_token = none;
  api_slug = none;
  stored = none;
  role_context = none;
}

abbrev load_persisted : (String → Snapshot) → Option String → Snapshot
load_persisted parse none = no_snapshot
load_persisted parse (some raw) = if truthy raw then parse raw else no_snapshot

abbrev hydrated : Snapshot → AuthState
hydrated p = record {
  user = p.user;
  tenant = p.tenant;
  tenant_slug = p.tenant_slug;
  token = p.token;
  refresh_token = p.refresh_token;
  is_loading = false;
  error = none;
  is_authenticated = has_text p.token;
  is_hydrated = true;
  ready = not (has_text p.refresh_token && not (has_text p.token));
}

-- What the module does when it is loaded: the store and the client start anew.
unfoldable pub load : (String → Snapshot) → World → World
load parse w =
    let p = load_persisted parse w.stored in
    record w {
      auth = hydrated p;
      access_token = if has_text p.token then p.token else none;
      api_slug = if has_text p.tenant_slug then p.tenant_slug else none;
    }
