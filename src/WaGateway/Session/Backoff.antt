-- ===== src/WaGateway/Session/Backoff.antt =====
-- Reconnecting, resetting and reporting, in every state that the event loop reaches.
use rr_net.Prelude.{
  ℕ, ◌<◌, ◌≤◌, ◌≡◌, ◌≢◌, ◌⊎◌, ◌↔◌, refl, inl, inr, Bool, true, false, none, some, String, arith,
  eq_iff, Option-cases, if◌then◌else◌, ◌==◌,
}
use rr_net.WaGateway.Session.{
  connected, connecting, needs_qr, disconnected, Manager, ConnectionUpdate, closed, snapshot,
  status, get_socket, schedule_reconnect, reconnect, reset_session, connection_update, update_at,
  status_after,
}
use rr_net.WaGateway.Session.Invariant.{Reach, Reach-Inv, connection_update-Inv}

-- However the steps of the event loop interleave, a session in the map is the tenant's own, so no
-- other tenant has it; it has retried at most once, and then its reconnect is pending; and its
-- `reconnectTimer` is defined exactly when a timeout of 2,000 ms is pending for it.
pub live_session :
    {m : Manager} (t u : String) (i : ℕ)
    → Reach m
    → m.sessions t ≡ some i
    → ((m.heap i).tenant_id ≡ t)
      × ((m.sessions u ≢ some i) ⊎ (u ≡ t))
      × ((m.heap i).reconnect_attempts ≤ 1)
      × (((m.heap i).reconnect_attempts ≡ 0) ⊎ (m.timers i ≡ some 2_000))
      × (((m.heap i).reconnect_timer ≡ true) ↔ (m.timers i ≡ some 2_000))
live_session {m} t u i r e =
    let v = Reach-Inv r in
    let own = v.live t i e in
    (
      own.owned,
      elim (Option-cases (m.sessions u)) [
        | inl none_there ↦ inl (λ same. cc)
        | inr (j, there) ↦ ground (arith, v.live u i)
      ],
      own.once,
      ground (arith, own.armed, own.ticking),
      (own.ticking, λ pending. (v.delays i 2_000 pending).defined),
    )

-- Every reconnect that is ever pending waits for exactly 2,000 ms: the exponential part of the
-- backoff is never reached, since a recreated session starts at no attempts.
pub pending_delay : {m : Manager} {i d : ℕ} → Reach m → m.timers i ≡ some d → d ≡ 2_000
pending_delay {i} {d} r e = ((Reach-Inv r).delays i d e).first

-- A reconnect whose session cannot be created leaves the tenant with no session and no timer of
-- that object, and adds no timer anywhere: nothing keeps trying.
pub reconnect_failed :
    (m : Manager) (i j : ℕ)
    → let m' = reconnect m i false in
      (m'.sessions (m.heap i).tenant_id ≡ none)
      × (m'.timers j ≡ (if i == j then none else m.timers j))
unfolding reconnect
reconnect_failed m i j = ground (arith, eq_iff (m.heap i).tenant_id (m.heap i).tenant_id)

-- A tenant with a session that has connected is reported as connected, with the socket of that
-- session and no QR code.
pub status-connected :
    {m : Manager} (t : String) (i : ℕ)
    → Reach m
    → m.sessions t ≡ some i
    → (m.heap i).status ≡ connected
    → (status m t ≡ connected)
      × (get_socket m t ≡ some i)
      × (snapshot m t
          ≡ some (record {
            tenant_id = t;
            status = connected;
            last_qr = none;
            last_qr_at = (m.heap i).last_qr_at;
          }))
unfolding status get_socket snapshot
status-connected {m} t i r e c = let v = Reach-Inv r in ground (arith, v.live t i e, v.settled i c)

-- A reset whose session can be created gives the tenant a new object that is connecting, and no
-- timer is pending for the object that the tenant had.
pub reset_session_lem :
    {m n : Manager} (t : String) (i : ℕ)
    → Reach m
    → m.sessions t ≡ some i
    → reset_session m t true ≡ some n
    → (status n t ≡ connecting)
      × (n.timers i ≡ none)
      × ((j : ℕ) × (get_socket n t ≡ some j) × (i < j))
unfolding reset_session status get_socket
reset_session_lem {m} {n} t i r e h =
    let v = Reach-Inv r in
    let l = v.live t i e in
    (
      ground (arith, eq_iff t t),
      elim (Option-cases (m.timers i)) [
        | inl idle ↦ ground (arith, eq_iff t t)
        | inr (d, busy) ↦ ground (arith, eq_iff t t, v.delays i d busy)
      ],
      (m.next, ground (arith, eq_iff t t), l.allocated),
    )

schedule_reconnect-timer :
    (m : Manager) (t : String) (i : ℕ)
    → m.sessions t ≡ some i
    → ((schedule_reconnect m t).sessions t ≡ some i)
      × (((schedule_reconnect m t).heap i).reconnect_timer ≡ true)
unfolding schedule_reconnect
schedule_reconnect-timer m t i e = ground arith

abbrev close_with : Bool → ConnectionUpdate
close_with out = record { qr = none; connection = some closed; logged_out = out }

-- When the socket of a tenant's session closes: after a logout the tenant needs a QR code and no
-- timer changes; otherwise a reconnect is pending for that session.
pub close_lem :
    {m : Manager} (t : String) (i now : ℕ)
    → Reach m
    → m.sessions t ≡ some i
    → let after = λ (out : Bool). (connection_update m i now (close_with out)).0 in
      (status (after true) t ≡ needs_qr)
      × ((after true).timers ≡ m.timers)
      × ((after false).timers i ≡ some 2_000)
unfolding connection_update status
close_lem {m} t i now r e =
    let v = Reach-Inv r in
    let l = v.live t i e in
    let after = connection_update-Inv m i now (close_with false) v in
    let closed_at = record m {
      heap =
          update_at m.heap i (record (m.heap i) { status = status_after (m.heap i) disconnected });
    } in
    let (kept, set) = schedule_reconnect-timer closed_at (m.heap i).tenant_id i (rw l.owned e) in
    (ground (arith, l), refl, (after.live (m.heap i).tenant_id i kept).ticking set)
