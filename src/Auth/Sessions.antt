-- ===== src/Auth/Sessions.antt =====
-- What the operations of fe/src/stores/authStore.ts keep between the store, the client of the API and
-- the entry in `localStorage`.
use rr_net.Prelude.{
  ◌≡◌, Bool, true, false, not, ◌&&◌, ◌||◌, Option, none, some, String, List, [], ◌∷◌, arith,
}
use rr_net.Errors.{has_text}
use rr_net.Types.{Answer, ok, threw, LoginResponse}
use rr_net.Auth.{
  Snapshot, World, login, logout, refresh, drop_session, on_token_refreshed, persist_state,
  snapshot_of,
}

-- What the program does with the store after its module is loaded.
pub data Action : Type 0 where
  log_in : Option String → Answer LoginResponse → Action
  log_out : Action
  renew : Answer LoginResponse → Action
  take_token : String → String → Action

abbrev is_some : Option String → Bool
is_some none = false
is_some (some x) = true

abbrev pub is_ok : Answer LoginResponse → Bool
is_ok (ok res) = true
is_ok (threw t) = false

-- The client of the API sends the token of the store, which is loaded, and a user who is
-- authenticated has a token.
abbrev pub IsSynced : World → Type 0
IsSynced w =
    (w.access_token ≡ w.auth.token)
    × (w.auth.is_hydrated ≡ true)
    × ((not w.auth.is_authenticated || is_some w.auth.token) ≡ true)

module _ (stringify : Snapshot → String) where
  unfoldable pub perform : Action → World → World
  perform (log_in slug a) w = (login stringify w slug a).0
  perform log_out w = logout w
  perform (renew a) w = refresh stringify w a
  perform (take_token t r) w = on_token_refreshed stringify w t r

  unfoldable pub run : List Action → World → World
  run [] w = w
  run (a ∷ acts) w = run acts (perform a w)

  -- A refresh always leaves the store ready; without a refresh token, or when the backend refuses,
  -- there is no session any more, and what a reload would find says the same.
  pub refresh_lem :
      (w : World) (a : Answer LoginResponse)
      → ((refresh stringify w a).auth.ready ≡ true)
        × ((refresh stringify w a).stored
            ≡ some (stringify (snapshot_of (refresh stringify w a).auth)))
        × ((refresh stringify w a).auth.is_authenticated
            ≡ (has_text w.auth.refresh_token && is_ok a))
  unfolding refresh drop_session persist_state
  refresh_lem w a = ground arith
