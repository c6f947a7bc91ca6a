-- ===== src/Tests/Gateway.antt =====
-- The gateway of wa-gateway/: one tenant whose session connects and whose socket then closes.
use rr_net.Prelude.{
  ℕ, suc, ◌<◌, ◌≤◌, ◌≡◌, ◌≢◌, ◌⊎◌, ◌↔◌, refl, Bool, true, false, List, [], ◌∷◌, map, none, some,
  String, Text, codes,
}
use rr_net.WaGateway.Text.{normalize_msisdn, to_jid}
use rr_net.WaGateway.Session.{
  Manager, empty_manager, create_session, connection_update, ConnectionUpdate, opened, closed,
  connected, connecting, needs_qr, status, get_socket, ensure_session, reset_session, begin_reset,
}
use rr_net.WaGateway.Session.Invariant.{Reach, start, next, created, updated}
use rr_net.WaGateway.Session.Backoff.{live_session, reset_session_lem, close_lem}
use rr_net.WaGateway.Server.{Message, BulkResult, Delivery, accepted, send_each, send, sent}
use rr_net.WaGateway.Server.Bulk.{send_each_lem, send-sent}

abbrev tenant : String
tenant = "a"

abbrev other : String
other = "b"

abbrev delay : ℕ
delay = 2_000

abbrev fresh : Manager
fresh = create_session empty_manager "a"

abbrev opening : ConnectionUpdate
opening = record { qr = none; connection = some opened; logged_out = false }

abbrev closing : ConnectionUpdate
closing = record { qr = none; connection = some closed; logged_out = false }

abbrev online : Manager
online = (connection_update fresh 0 5 opening).0

abbrev dropped : Manager
dropped = (connection_update online 0 7 closing).0

fresh-Reach : Reach fresh
fresh-Reach = next start (created empty_manager "a")

online-Reach : Reach online
online-Reach = next fresh-Reach (updated fresh 0 5 opening)

dropped-Reach : Reach dropped
dropped-Reach = next online-Reach (updated online 0 7 closing)

online_here : online.sessions "a" ≡ some 0
unfolding create_session empty_manager connection_update
online_here = refl

online_connected : (online.heap 0).status ≡ connected
unfolding create_session empty_manager connection_update
online_connected = refl

dropped_here : dropped.sessions "a" ≡ some 0
unfolding create_session empty_manager connection_update
dropped_here = refl

dropped_pending : dropped.timers 0 ≡ some 2_000
unfolding create_session empty_manager connection_update
dropped_pending = refl

live_session_example :
    ((dropped.heap 0).tenant_id ≡ "a")
    × ((dropped.sessions "b" ≢ some 0) ⊎ (other ≡ tenant))
    × ((dropped.heap 0).reconnect_attempts ≤ 1)
    × (((dropped.heap 0).reconnect_attempts ≡ 0) ⊎ (dropped.timers 0 ≡ some 2_000))
    × (((dropped.heap 0).reconnect_timer ≡ true) ↔ (dropped.timers 0 ≡ some 2_000))
live_session_example = live_session "a" "b" 0 dropped-Reach dropped_here

abbrev renewed : Manager
renewed = create_session (begin_reset dropped "a") "a"

reset_session_lem_example :
    (status renewed "a" ≡ connecting)
    × (renewed.timers 0 ≡ none)
    × ((j : ℕ) × (get_socket renewed "a" ≡ some j) × (0 < j))
reset_session_lem_example =
    reset_session_lem "a" 0 dropped-Reach dropped_here (unfold reset_session in refl)

close_lem_example :
    let after = λ (out : Bool).
      (connection_update online 0 7
        (record { qr = none; connection = some closed; logged_out = out })).0 in
    (status (after true) "a" ≡ needs_qr)
    × ((after true).timers ≡ online.timers)
    × ((after false).timers 0 ≡ some 2_000)
close_lem_example = close_lem "a" 0 7 online-Reach online_here

abbrev number : Text
number = codes "+62 812-345"

abbrev digits : Text
digits = codes "62812345"

number-digits : normalize_msisdn number ≡ some digits
unfolding normalize_msisdn
number-digits = refl

-- The world counts the messages that are sent.
abbrev counter : ℕ → ℕ → Text → Text → Delivery × ℕ
counter w sock jid body = (accepted (some "id"), suc w)

abbrev three : List Message
three =
    record { to = number; text = codes "hi" }
    ∷ record { to = codes "12"; text = codes "hi" }
    ∷ record { to = digits; text = codes "hi" }
    ∷ []

send_each_lem_example :
    (map (λ (r : BulkResult). r.to) (send_each counter 0 0 three).0
      ≡ map (λ (m : Message). m.to) three)
    × ((send_each counter 0 0 three).1
        ≡ (send_each counter 0 0 (
            record { to = number; text = codes "hi" }
            ∷ record { to = digits; text = codes "hi" }
            ∷ [])).1)
unfolding normalize_msisdn
send_each_lem_example = send_each_lem counter 0 0 three

send-online :
    send counter 0 online "a" true (some number) (some (codes "hi")) ≡ (sent (some "id"), online, 1)
unfolding send create_session empty_manager connection_update status ensure_session get_socket
    normalize_msisdn
send-online = refl

send-sent_example :
    (status online "a" ≡ connected)
    × ((to body msisdn : Text) × (sock : ℕ) × (some number ≡ some to)
        × (some (codes "hi") ≡ some body)
        × (normalize_msisdn to ≡ some msisdn)
        × (get_socket online "a" ≡ some sock)
        × (counter 0 sock (to_jid msisdn) body ≡ (accepted (some "id"), 1)))
send-sent_example =
    send-sent counter 0 1 online online "a" true (some number) (some (codes "hi")) (some "id")
      send-online
