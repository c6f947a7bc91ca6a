-- ===== src/Tenants.antt =====
-- fe/src/stores/tenantStore.ts, with the browser's storage under its key. `resolveTenant` is two steps, as
-- other actions may run while it waits for the backend.
use rr_net.Prelude.{
  ◌≡◌, refl, Bool, true, false, List, [], ◌∷◌, Option, none, some, String, truthy, if◌then◌else◌,
}
use rr_net.Types.{Answer, ok, threw, Tenant, or_else, or_first}
use rr_net.Errors.{response_error}

pub record TenantState : Type 0 where
  pub tenant : Option Tenant
  pub slug : Option String
  pub loading : Bool
  pub error : Option String
  pub resolved : Bool

-- The store and the storage, `none` where the key is missing.
pub record World : Type 0 where
  pub state : TenantState
  pub stored : Option String

-- The storage afterwards.
unfoldable pub persist_slug : Option String → Option String
persist_slug none = none
persist_slug (some s) = if truthy s then some s else none

-- The store when the page loads: `loadSlug` reads the storage.
unfoldable pub loaded : (stored : Option String) → World
loaded stored = record {
  state = record { tenant = none; slug = stored; loading = false; error = none; resolved = false };
  stored = stored;
}

unfoldable pub set_slug : World → Option String → World
set_slug w slug = record { state = record w.state { slug = slug }; stored = persist_slug slug }

unfoldable pub set_tenant : World → Tenant → String → World
set_tenant w t slug = record {
  state = record {
    tenant = some t;
    slug = some slug;
    loading = false;
    error = none;
    resolved = true;
  };
  stored = persist_slug (some slug);
}

unfoldable pub clear : World → World
clear w = record {
  state = record { tenant = none; slug = none; loading = false; error = none; resolved = false };
  stored = persist_slug none;
}

abbrev without_slug : World → World
without_slug w = record w {
  state = record w.state { tenant = none; resolved = true; loading = false; error = none };
}

abbrev ask : World → Option String → World × Option String
ask w none = (without_slug w, none)
ask w (some s) = (record w { state = record w.state { loading = true; error = none } }, some s)

-- The store, and the slug that the backend is asked for, if it is.
unfoldable pub start_resolve_tenant : World → Option String → World × Option String
unfolding persist_slug
start_resolve_tenant w slug =
    if w.state.loading then (w, none) else ask w (persist_slug (or_first slug w.state.slug))

unfoldable pub end_resolve_tenant : World → (slug : String) → Answer Tenant → World
end_resolve_tenant w slug (ok t) = record {
  state = record {
    tenant = some t;
    slug = some slug;
    loading = false;
    error = none;
    resolved = true;
  };
  stored = persist_slug (some slug);
}
end_resolve_tenant w slug (threw t) = record w {
  state = record w.state {
    tenant = none;
    loading = false;
    resolved = true;
    error = some (or_else (response_error t) "Failed to resolve tenant");
  };
}

pub data Event : Type 0 where
  sets_slug starts : Option String → Event
  sets_tenant : Tenant → String → Event
  clears : Event
  ends : String → Answer Tenant → Event

unfoldable pub perform : World → Event → World
perform w (sets_slug s) = set_slug w s
perform w (starts s) = (start_resolve_tenant w s).0
perform w (sets_tenant t s) = set_tenant w t s
perform w clears = clear w
perform w (ends s a) = end_resolve_tenant w s a

unfoldable pub run : World → List Event → World
run w [] = w
run w (e ∷ es) = run (perform w e) es

-- The storage has the store's slug.
abbrev IsStored : World → Type 0
IsStored w = w.stored ≡ persist_slug w.state.slug

ask-IsStored : (w : World) (s : Option String) → IsStored w → IsStored (ask w s).0
ask-IsStored w none h = h
ask-IsStored w (some s) h = h

unless-IsStored :
    (b : Bool) (w : World) (s : Option String)
    → IsStored w
    → IsStored (if b then (w, none) else ask w s).0
unless-IsStored true w s h = h
unless-IsStored false w s h = ask-IsStored w s h

perform-IsStored : (w : World) (e : Event) → IsStored w → IsStored (perform w e)
unfolding perform set_slug start_resolve_tenant set_tenant clear end_resolve_tenant
perform-IsStored w (sets_slug s) h = refl
perform-IsStored w (starts s) h =
    unless-IsStored w.state.loading w (persist_slug (or_first s w.state.slug)) h
perform-IsStored w (sets_tenant t s) h = refl
perform-IsStored w clears h = refl
perform-IsStored w (ends s (ok t)) h = refl
perform-IsStored w (ends s (threw t)) h = h

run-IsStored : (w : World) (es : List Event) → IsStored w → IsStored (run w es)
unfolding run
run-IsStored w [] h = h
run-IsStored w (e ∷ es) h = run-IsStored (perform w e) es (perform-IsStored w e h)

-- After whatever was done since the page was loaded, also when a tenant could not be resolved or
-- actions overlapped, loading the page again gives the store the slug it has now; only an empty slug
-- becomes none. What was in the storage before was not the empty text.
pub loaded-run :
    (stored : Option String) (es : List Event)
    → stored ≡ persist_slug stored
    → (loaded (run (loaded stored) es).stored).state.slug
      ≡ persist_slug (run (loaded stored) es).state.slug
unfolding loaded
loaded-run stored es h = run-IsStored (loaded stored) es h
