-- ===== src/WaGateway/Session.antt =====
-- wa-gateway/src/sessionManager.ts. A session object is shared by the map, by its socket's event
-- handler and by its reconnect timer, so objects live on a heap and are named by their number.
-- What stands behind an `await` (the key store, the version lookup, the socket) may fail: the caller
-- is told by which step follows. A timestamp is a number of milliseconds.
pub mod Invariant
pub mod Backoff
use rr_net.Prelude.{
  ℕ, suc, ◌+◌, ◌*◌, ◌^◌, min, Bool, true, false, List, [], ◌∷◌, ◌++◌, Option, none, some, String,
  str_eq, ◌==◌, if◌then◌else◌, update, truthy,
}

pub data SessionStatus : Type 0 where
  connected connecting needs_qr disconnected : SessionStatus

pub record Session : Type 0 where
  pub tenant_id : String
  pub status : SessionStatus
  pub last_qr : Option String
  pub last_qr_at : Option ℕ
  pub reconnect_attempts : ℕ
  -- Whether `reconnectTimer` is defined.
  pub reconnect_timer : Bool

pub record SessionSnapshot : Type 0 where
  pub tenant_id : String
  pub status : SessionStatus
  pub last_qr : Option String
  pub last_qr_at : Option ℕ

pub record Manager : Type 0 where
  pub heap : ℕ → Session
  pub next : ℕ
  pub sessions : String → Option ℕ
  -- The delay of the timeout that is pending for an object.
  pub timers : ℕ → Option ℕ

abbrev pub update_at {ℓ} : {V : Type ℓ} → (ℕ → V) → ℕ → V → ℕ → V
update_at m k v j = if k == j then v else m j

-- A JavaScript test of a value that may be `null` or the empty text.
abbrev pub has_qr : Option String → Bool
has_qr none = false
has_qr (some q) = truthy q

abbrev pub new_session : String → Session
new_session tenant_id = record {
  tenant_id = tenant_id;
  status = connecting;
  last_qr = none;
  last_qr_at = none;
  reconnect_attempts = 0;
  reconnect_timer = false;
}

unfoldable pub empty_manager : Manager
empty_manager = record {
  heap = λ _. new_session "";
  next = 0;
  sessions = λ _. none;
  timers = λ _. none;
}

abbrev snapshot_of : Session → SessionSnapshot
snapshot_of s = record {
  tenant_id = s.tenant_id;
  status = s.status;
  last_qr = s.last_qr;
  last_qr_at = s.last_qr_at;
}

unfoldable pub snapshot : Manager → String → Option SessionSnapshot
snapshot m tenant_id = elim (m.sessions tenant_id) [
  | none ↦ none
  | some i ↦ some (snapshot_of (m.heap i))
]

unfoldable pub status : Manager → String → SessionStatus
status m tenant_id = elim (m.sessions tenant_id) [
  | none ↦ disconnected
  | some i ↦ if has_qr (m.heap i).last_qr then needs_qr else (m.heap i).status
]

-- The socket of a session is named by its object.
unfoldable pub get_socket : Manager → String → Option ℕ
get_socket m tenant_id = m.sessions tenant_id

-- The part of `createSession` behind its awaits: the new object enters the map.
unfoldable pub create_session : Manager → String → Manager
create_session m tenant_id = record {
  heap = update_at m.heap m.next (new_session tenant_id);
  next = suc m.next;
  sessions = update m.sessions tenant_id (some m.next);
  timers = m.timers;
}

-- With the verdict of the awaits, `none` when `createSession` throws.
unfoldable pub ensure_session : Manager → String → Bool → Option Manager
unfolding create_session
ensure_session m tenant_id opens = elim (m.sessions tenant_id) [
  | some i ↦ some m
  | none ↦ if opens then some (create_session m tenant_id) else none
]

pub backoff_ms : ℕ → ℕ
backoff_ms attempts = min 30_000 (1_000 * 2 ^ min 5 attempts)

arm : Manager → ℕ → Manager
unfolding backoff_ms
arm m i =
    let attempts = (m.heap i).reconnect_attempts + 1 in
    record m {
      heap =
          update_at m.heap i
            (record (m.heap i) { reconnect_attempts = attempts; reconnect_timer = true });
      timers = update_at m.timers i (some (backoff_ms attempts));
    }

unfoldable pub schedule_reconnect : Manager → String → Manager
unfolding arm
schedule_reconnect m tenant_id = elim (m.sessions tenant_id) [
  | none ↦ m
  | some i ↦ if (m.heap i).reconnect_timer then m else arm m i
]

-- The timer's callback up to its `await`.
unfoldable pub begin_reconnect : Manager → ℕ → Manager
begin_reconnect m i = record {
  heap = update_at m.heap i (record (m.heap i) { reconnect_timer = false });
  next = m.next;
  sessions = update m.sessions (m.heap i).tenant_id none;
  timers = update_at m.timers i none;
}

-- The whole callback: on failure it calls `scheduleReconnect` again.
unfoldable pub reconnect : Manager → ℕ → Bool → Manager
unfolding begin_reconnect create_session schedule_reconnect
reconnect m i opens =
    let m' = begin_reconnect m i in
    let tenant_id = (m.heap i).tenant_id in
    if opens then create_session m' tenant_id else schedule_reconnect m' tenant_id

-- `resetSession` up to its `await`: `clearTimeout` leaves the field `reconnectTimer` as it is.
unfoldable pub begin_reset : Manager → String → Manager
begin_reset m tenant_id = elim (m.sessions tenant_id) [
  | none ↦ m
  | some i ↦ record m {
    sessions = update m.sessions tenant_id none;
    timers = if (m.heap i).reconnect_timer then update_at m.timers i none else m.timers;
  }
]

unfoldable pub reset_session : Manager → String → Bool → Option Manager
unfolding begin_reset create_session
reset_session m tenant_id opens =
    if opens then some (create_session (begin_reset m tenant_id) tenant_id) else none

pub data Connection : Type 0 where
  opened reconnecting closed : Connection

-- What the socket reports; `logged_out` is `code === DisconnectReason.loggedOut`.
pub record ConnectionUpdate : Type 0 where
  pub qr : Option String
  pub connection : Option Connection
  pub logged_out : Bool

pub data Emitted : Type 0 where
  qr : String → Emitted
  on_connected on_disconnected : Emitted
  -- The tenant's directory is removed and made again.
  cleared : Emitted

on_qr : Session → ℕ → Option String → Session × List Emitted
on_qr s now none = (s, [])
on_qr s now (some q) =
    if truthy q
    then (record s { last_qr = some q; last_qr_at = some now; status = needs_qr }, qr q ∷ [])
    else (s, [])

status_after : Session → SessionStatus → SessionStatus
status_after s otherwise = if has_qr s.last_qr then needs_qr else otherwise

forget_qr : Session → SessionStatus → Session
forget_qr s st = record s { status = st; last_qr = none; last_qr_at = none }

on_connection : Manager → ℕ → Session → Option Connection → Bool → Manager × List Emitted
unfolding status_after forget_qr schedule_reconnect
on_connection m i s none logged_out = (record m { heap = update_at m.heap i s }, [])
on_connection m i s (some opened) logged_out =
    (record m { heap = update_at m.heap i (forget_qr s connected) }, on_connected ∷ [])
on_connection m i s (some reconnecting) logged_out =
    let s' = record s { status = status_after s connecting } in
    (record m { heap = update_at m.heap i s' }, [])
on_connection m i s (some closed) true =
    (record m { heap = update_at m.heap i (forget_qr s needs_qr) }, cleared ∷ on_disconnected ∷ [])
on_connection m i s (some closed) false =
    let s' = record s { status = status_after s disconnected } in
    (
      schedule_reconnect (record m { heap = update_at m.heap i s' }) s.tenant_id,
      on_disconnected ∷ [],
    )

-- The handler of "connection.update" of the socket of object `i`.
unfoldable pub connection_update : Manager → ℕ → ℕ → ConnectionUpdate → Manager × List Emitted
unfolding on_qr on_connection
connection_update m i now u =
    let (s, first) = on_qr (m.heap i) now u.qr in
    let (m', rest) = on_connection m i s u.connection u.logged_out in (m', first ++ rest)
