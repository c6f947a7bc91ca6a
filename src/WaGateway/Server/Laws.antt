-- ===== src/WaGateway/Server/Laws.antt =====
-- Who gets past the authentication hook, and what connecting does.
use rr_net.Prelude.{
  ℕ, ◌≡◌, ◌≢◌, ◌⊎◌, ◌↔◌, Bool, true, false, Option, none, some, String, arith, eq_iff,
}
use rr_net.WaGateway.Session.{
  connected, connecting, Manager, snapshot, status, ensure_session, reset_session,
}
use rr_net.WaGateway.Session.Invariant.{Reach, Reach-Inv}
use rr_net.WaGateway.Server.{pre_handler, Wait, connect}

-- A request gets past the hook exactly when the header carries the configured token, or no token
-- is configured and the service does not run in production.
pub pre_handler_iff :
    (token : String) (production : Bool) (header : Option String)
    → (pre_handler token production header ≡ none)
      ↔ (((token ≢ "") × (header ≡ some token)) ⊎ ((token ≡ "") × (production ≡ false)))
unfolding pre_handler
pre_handler_iff token production none = (
  λ h. ground (arith, eq_iff token "", eq_iff "" token),
  λ h. ground (arith, eq_iff token "", eq_iff "" token),
)
pre_handler_iff token production (some h) = (
  λ e. ground (arith, eq_iff token "", eq_iff h token),
  λ e. ground (arith, eq_iff token "", eq_iff h token),
)

-- Connecting a tenant whose session is connected changes nothing, waits for nothing and resets
-- nothing: the reply says connected, with no QR code.
pub connect-connected :
    {m : Manager} (t : String) (i : ℕ) (opens reopens : Bool) (wait again : Wait)
    → Reach m
    → m.sessions t ≡ some i
    → (m.heap i).status ≡ connected
    → connect m t opens wait reopens again
      ≡ some (
        record {
          tenant_id = t;
          status = connected;
          qr = none;
          qr_updated_at = (m.heap i).last_qr_at;
        },
        m,
      )
unfolding connect ensure_session snapshot
connect-connected {m} t i opens reopens wait again r e c =
    let v = Reach-Inv r in ground (arith, v.live t i e, v.settled i c)

-- When the session is not connected and neither wait gives a QR code, the session is reset once
-- and the reply says connecting, with no QR code.
pub connect-resets :
    {m m' n : Manager} (t : String) (i : ℕ) (opens : Bool) (wait again : Wait)
    → m.sessions t ≡ some i
    → (m.heap i).status ≢ connected
    → (m.heap i).last_qr ≡ none
    → wait m ≡ (none, m')
    → reset_session m' t true ≡ some n
    → again n ≡ (none, n)
    → connect m t opens wait true again
      ≡ some (record { tenant_id = t; status = connecting; qr = none; qr_updated_at = none }, n)
unfolding connect ensure_session snapshot reset_session status
connect-resets {m} {m'} {n} t i opens wait again e c q w h a = ground (arith, eq_iff t t)
