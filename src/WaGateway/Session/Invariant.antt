-- ===== src/WaGateway/Session/Invariant.antt =====
-- What holds of the session manager between two steps, however they interleave.
use rr_net.Prelude.{
  ℕ, ◌+◌, ◌≤◌, ◌<◌, ◌≡◌, refl, Bool, true, false, Option, none, some, String, arith, eq_iff, inl,
  inr, Option-cases, Bool-cases,
}
use rr_net.WaGateway.Session.{
  Session, Manager, ConnectionUpdate, empty_manager, create_session, update_at, schedule_reconnect,
  arm, begin_reconnect, begin_reset, connection_update, on_connection, on_qr, Connection, opened,
  reconnecting, closed, connected, backoff_ms,
}

-- The steps of the event loop: the continuation behind an await, a socket event, a timer, the
-- failure branch of a timer's callback, and a reset.
pub data Step : Manager → Manager → Type 0 where
  created : (m : Manager) (tenant_id : String) → Step m (create_session m tenant_id)
  updated :
      (m : Manager) (i now : ℕ) (u : ConnectionUpdate) → Step m (connection_update m i now u).0
  fired : (m : Manager) (i d : ℕ) → m.timers i ≡ some d → Step m (begin_reconnect m i)
  failed : (m : Manager) (tenant_id : String) → Step m (schedule_reconnect m tenant_id)
  reset : (m : Manager) (tenant_id : String) → Step m (begin_reset m tenant_id)

pub data Reach : Manager → Type 0 where
  start : Reach empty_manager
  next : {m n : Manager} → Reach m → Step m n → Reach n

-- Of each session in the map.
pub record IsLive (m : Manager) (t : String) (i : ℕ) : Type 0 where
  pub owned : (m.heap i).tenant_id ≡ t
  pub allocated : i < m.next
  pub once : (m.heap i).reconnect_attempts ≤ 1
  pub armed : 0 < (m.heap i).reconnect_attempts → (m.heap i).reconnect_timer ≡ true
  pub ticking : (m.heap i).reconnect_timer ≡ true → m.timers i ≡ some 2_000

-- Of each pending timer.
pub record IsPending (m : Manager) (i d : ℕ) : Type 0 where
  pub first : d ≡ 2_000
  pub defined : (m.heap i).reconnect_timer ≡ true
  pub of_object : i < m.next

pub record Inv (m : Manager) : Type 0 where
  pub live : (t : String) (i : ℕ) → m.sessions t ≡ some i → IsLive m t i
  pub delays : (i d : ℕ) → m.timers i ≡ some d → IsPending m i d
  pub settled : (i : ℕ) → (m.heap i).status ≡ connected → (m.heap i).last_qr ≡ none

pub empty_manager-Inv : Inv empty_manager
unfolding empty_manager
empty_manager-Inv = record { live = λ t i e. cc; delays = λ i d e. cc; settled = λ i e. cc }

pub create_session-Inv : (m : Manager) (k : String) → Inv m → Inv (create_session m k)
unfolding create_session
create_session-Inv m k v = record {
  live = λ t i e. ground (arith, eq_iff k t, v.live t i);
  delays = λ i d e. ground (arith, v.delays i d);
  settled = λ i e. ground (arith, v.settled i);
}

-- A session with no timer has not been retried, so the only delay is the first one.
arm-Inv :
    (m : Manager) (k : String) (j : ℕ)
    → Inv m
    → m.sessions k ≡ some j
    → (m.heap j).reconnect_timer ≡ false
    → Inv (arm m j)
unfolding arm
arm-Inv m k j v here idle = record {
  live = λ t i e. ground (arith, v.live t i, v.live k j here, backoff_first);
  delays = λ i d e. ground (arith, v.live k j here, v.delays i d, backoff_first);
  settled = λ i e. ground (arith, v.settled i, v.settled j);
}
  where
    unused : (m.heap j).reconnect_attempts ≡ 0
    unused = ground (arith, v.live k j here)

    backoff_first : backoff_ms ((m.heap j).reconnect_attempts + 1) ≡ 2_000
    backoff_first = rw unused (unfold backoff_ms in refl)

pub schedule_reconnect-Inv : (m : Manager) (k : String) → Inv m → Inv (schedule_reconnect m k)
unfolding schedule_reconnect
schedule_reconnect-Inv m k v = elim (Option-cases (m.sessions k)) [
  | inl gone ↦ rw (gone, schedule_reconnect) v
  | inr (j, here) ↦ elim (Bool-cases (m.heap j).reconnect_timer) [
    | inl busy ↦ rw (here, schedule_reconnect) (rw busy v)
    | inr idle ↦ rw (here, schedule_reconnect) (rw idle (arm-Inv m k j v here idle))
  ]
]

pub begin_reconnect-Inv : (m : Manager) (i : ℕ) → Inv m → Inv (begin_reconnect m i)
unfolding begin_reconnect
begin_reconnect-Inv m k v = record {
  live = λ t i e. ground (arith, eq_iff (m.heap k).tenant_id t, v.live t i);
  delays = λ i d e. ground (arith, v.delays i d);
  settled = λ i e. ground (arith, v.settled i, v.settled k);
}

pub begin_reset-Inv : (m : Manager) (k : String) → Inv m → Inv (begin_reset m k)
unfolding begin_reset
begin_reset-Inv m k v = record {
  live = λ t i e. ground (arith, eq_iff k t, v.live t i, v.live k i);
  delays = λ i d e. ground (arith, v.delays i d);
  settled = λ i e. ground (arith, v.settled i);
}

-- A change to one object that keeps its tenant, its attempts and its timer.
touch-Inv :
    (m : Manager) (k : ℕ) (s : Session)
    → Inv m
    → s.tenant_id ≡ (m.heap k).tenant_id
    → s.reconnect_attempts ≡ (m.heap k).reconnect_attempts
    → s.reconnect_timer ≡ (m.heap k).reconnect_timer
    → (s.status ≡ connected → s.last_qr ≡ none)
    → Inv (record m { heap = update_at m.heap k s })
touch-Inv m k s v a b c d = record {
  live = λ t i e. ground (arith, v.live t i);
  delays = λ i d e. ground (arith, v.delays i d);
  settled = λ i e. ground (arith, v.settled i);
}

on_qr-keeps :
    (s : Session) (now : ℕ) (q : Option String)
    → (s.status ≡ connected → s.last_qr ≡ none)
    → let r = (on_qr s now q).0 in
      (r.tenant_id ≡ s.tenant_id)
      × (r.reconnect_attempts ≡ s.reconnect_attempts)
      × (r.reconnect_timer ≡ s.reconnect_timer)
      × (r.status ≡ connected → r.last_qr ≡ none)
unfolding on_qr
on_qr-keeps s now q h = ground arith

on_connection-Inv :
    (m : Manager) (i : ℕ) (s : Session) (c : Option Connection) (out : Bool)
    → Inv m
    → s.tenant_id ≡ (m.heap i).tenant_id
    → s.reconnect_attempts ≡ (m.heap i).reconnect_attempts
    → s.reconnect_timer ≡ (m.heap i).reconnect_timer
    → (s.status ≡ connected → s.last_qr ≡ none)
    → Inv (on_connection m i s c out).0
unfolding on_connection
on_connection-Inv m i s none out v a b c d = touch-Inv m i s v a b c d
on_connection-Inv m i s (some opened) out v a b c d = touch-Inv m i _ v a b c (λ _. refl)
on_connection-Inv m i s (some reconnecting) out v a b c d =
    touch-Inv m i _ v a b c (λ e. ground arith)
on_connection-Inv m i s (some closed) true v a b c d = touch-Inv m i _ v a b c (λ _. refl)
on_connection-Inv m i s (some closed) false v a b c d =
    schedule_reconnect-Inv _ s.tenant_id (touch-Inv m i _ v a b c (λ e. ground arith))

pub connection_update-Inv :
    (m : Manager) (i now : ℕ) (u : ConnectionUpdate) → Inv m → Inv (connection_update m i now u).0
unfolding connection_update
connection_update-Inv m i now u v =
    let (a, b, c, d) = on_qr-keeps (m.heap i) now u.qr (v.settled i) in
    on_connection-Inv m i _ u.connection u.logged_out v a b c d

Step-Inv : {m n : Manager} → Step m n → Inv m → Inv n
Step-Inv (created m t) v = create_session-Inv m t v
Step-Inv (updated m i now u) v = connection_update-Inv m i now u v
Step-Inv (fired m i d e) v = begin_reconnect-Inv m i v
Step-Inv (failed m t) v = schedule_reconnect-Inv m t v
Step-Inv (reset m t) v = begin_reset-Inv m t v

pub Reach-Inv : {m : Manager} → Reach m → Inv m
Reach-Inv start = empty_manager-Inv
Reach-Inv (next r s) = Step-Inv s (Reach-Inv r)
