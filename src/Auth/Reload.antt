-- ===== src/Auth/Reload.antt =====
-- What a reload of the page restores of fe/src/stores/authStore.ts: `load` after `login`.
use rr_net.Prelude.{◌≡◌, true, Option, none, some, String, arith, truthy}
use rr_net.Types.{ok, Tenant, LoginResponse}
use rr_net.Auth.{Snapshot, World, login, load, persist_state, snapshot_of}

abbrev pub IsRestored : (before after : World) → Type 0
IsRestored before after =
    (after.auth ≡ record before.auth { is_hydrated = true })
    × (after.access_token ≡ before.access_token)
    × (after.stored ≡ before.stored)

abbrev pub HasSlugs : World → (store api : Option String) → Type 0
HasSlugs w store api = (w.auth.tenant_slug ≡ store) × (w.api_slug ≡ api)

-- JSON reads back what it wrote, which is not the empty text.
abbrev pub RoundTrips : (String → Snapshot) → (Snapshot → String) → Snapshot → Type 0
RoundTrips parse stringify s = (parse (stringify s) ≡ s) × (truthy (stringify s) ≡ true)

module _ (parse : String → Snapshot) (stringify : Snapshot → String) where
  -- After a login with an access token, where JSON reads back the entry, a reload gives the session again: the same user, tenant and
  -- tokens, authenticated, ready, and the client of the API has the token.
  pub load-login :
      (w : World) (slug : Option String) (res : LoginResponse)
      → RoundTrips parse stringify (snapshot_of (login stringify w slug (ok res)).0.auth)
      → truthy res.access_token ≡ true
      → IsRestored
          (login stringify w slug (ok res)).0
          (load parse (login stringify w slug (ok res)).0)
  unfolding login load persist_state
  load-login w slug res written t = ground arith

  -- A login without a slug, of a user who has a tenant with a slug, leaves the client of the API without the
  -- tenant's slug that the store has; a reload gives it to the client, where
  -- JSON reads back the entry.
  pub login-slug :
      (w : World) (res : LoginResponse) (t : Tenant)
      → RoundTrips parse stringify (snapshot_of (login stringify w none (ok res)).0.auth)
      → res.tenant ≡ some t
      → truthy t.slug ≡ true
      → HasSlugs (login stringify w none (ok res)).0 (some t.slug) none
        × HasSlugs (load parse (login stringify w none (ok res)).0) (some t.slug) (some t.slug)
  unfolding login load persist_state
  login-slug w res t written e h = ground arith
