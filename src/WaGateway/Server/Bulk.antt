-- ===== src/WaGateway/Server/Bulk.antt =====
-- The bulk loop of the gateway, and what a single message needs.
use rr_net.Prelude.{
  ℕ, ◌≡◌, ◌≢◌, refl, inl, inr, Bool, true, false, List, [], ◌∷◌, map, Option, none, some, String,
  arith, filter, Text, Option-cases, eq_iff,
}
use rr_net.WaGateway.Text.{normalize_msisdn, to_jid}
use rr_net.WaGateway.Session.{
  connected, Manager, status, get_socket, create_session, connecting, ensure_session,
}
use rr_net.WaGateway.Server.{
  Message, BulkResult, sent, Delivery, accepted, send, send_over, deliver, send_one, send_each,
  not_connected,
}

abbrev has_number : Message → Bool
has_number msg = elim (normalize_msisdn msg.to) [ none ↦ false | some d ↦ true ]

module _ {W : Type 0} (send_message : W → ℕ → Text → Text → Delivery × W) where
  send_one-to :
      (w : W) (sock : ℕ) (msg : Message) → (send_one send_message w sock msg).0.to ≡ msg.to
  unfolding send_one
  send_one-to w sock msg = ground arith

  send_one_invalid :
      (w : W) (sock : ℕ) (msg : Message)
      → normalize_msisdn msg.to ≡ none
      → (send_one send_message w sock msg).1 ≡ w
  unfolding send_one
  send_one_invalid w sock msg h = ground arith

  deliver-sent :
      (w w' : W) (sock : ℕ) (to text : Text) (id : Option String)
      → deliver send_message w sock to text ≡ (sent id, w')
      → (msisdn : Text) × (normalize_msisdn to ≡ some msisdn)
        × (send_message w sock (to_jid msisdn) text ≡ (accepted id, w'))
  unfolding deliver
  deliver-sent w w' sock to text id e = elim (Option-cases (normalize_msisdn to)) [
    | inl bad ↦ absurd (ground arith)
    | inr (d, good) ↦ (d, good, ground arith)
  ]

  send_over-sent :
      (w w' : W) (m : Manager) (t : String) (to text : Text) (id : Option String)
      → send_over send_message w m t to text ≡ (sent id, w')
      → (status m t ≡ connected)
        × ((sock : ℕ) × (get_socket m t ≡ some sock)
            × (deliver send_message w sock to text ≡ (sent id, w')))
  unfolding send_over
  send_over-sent w w' m t to text id e = elim (Option-cases (get_socket m t)) [
    | inl gone ↦ absurd (ground arith)
    | inr (sock, here) ↦ (ground arith, (sock, here, ground arith))
  ]

  -- The bulk loop answers every message once and in order, whatever fails on the way; and it leaves
  -- the world as if only the messages with a valid number had been given.
  pub send_each_lem :
      (w : W) (sock : ℕ) (ms : List Message)
      → (map (λ (r : BulkResult). r.to) (send_each send_message w sock ms).0
          ≡ map (λ (m : Message). m.to) ms)
        × ((send_each send_message w sock ms).1
            ≡ (send_each send_message w sock (filter has_number ms)).1)
  unfolding send_each
  send_each_lem w sock [] = (refl, refl)
  send_each_lem w sock (m ∷ ms) =
      let (same, after) = send_each_lem (send_one send_message w sock m).1 sock ms in
      (
        cc (send_one-to w sock m, same),
        elim (Option-cases (normalize_msisdn m.to)) [
          | inl bad ↦ ground (arith, send_each_lem w sock ms, send_one_invalid w sock m bad)
          | inr (d, good) ↦ ground (arith, after)
        ],
      )

  -- A single message is sent only over the socket of a session that is connected, to the address
  -- of a valid number.
  pub send-sent :
      (w w' : W) (m m' : Manager) (t : String) (opens : Bool) (to text : Option Text)
      (id : Option String)
      → send send_message w m t opens to text ≡ (sent id, m', w')
      → (status m' t ≡ connected)
        × ((number body msisdn : Text) × (sock : ℕ) × (to ≡ some number)
            × (text ≡ some body)
            × (normalize_msisdn number ≡ some msisdn)
            × (get_socket m' t ≡ some sock)
            × (send_message w sock (to_jid msisdn) body ≡ (accepted id, w')))
  unfolding send
  send-sent w w' m m' t opens (some (c ∷ cs)) (some (d ∷ ds)) id e =
      let x : (status m' t ≡ connected)
          × ((sock : ℕ) × (get_socket m' t ≡ some sock)
              × (deliver send_message w sock (c ∷ cs) (d ∷ ds) ≡ (sent id, w'))) =
        send_over-sent w w' m' t (c ∷ cs) (d ∷ ds) id (ground arith) in
      let (sock, here, done) = x.1 in
      let (msisdn, valid, called) = deliver-sent w w' sock (c ∷ cs) (d ∷ ds) id done in
      (x.0, (c ∷ cs, d ∷ ds, msisdn, sock, refl, refl, valid, here, called))
  send-sent w w' m m' t opens (some (c ∷ cs)) (some []) id e = absurd (ground arith)
  send-sent w w' m m' t opens (some (c ∷ cs)) none id e = absurd (ground arith)
  send-sent w w' m m' t opens (some []) text id e = absurd (ground arith)
  send-sent w w' m m' t opens none text id e = absurd (ground arith)

  send_over_new :
      (w : W) (m : Manager) (t : String) (to text : Text)
      → send_over send_message w (create_session m t) t to text ≡ (not_connected connecting, w)
  unfolding send_over create_session status
  send_over_new w m t to text = ground (arith, eq_iff t t)

  -- The first message to a tenant with no session is not sent: the session is created, and the
  -- reply is 409 with the status of the new session. Nothing else of the world changes.
  pub send-first :
      (w : W) (m : Manager) (t : String) (to text : Text)
      → m.sessions t ≡ none
      → to ≢ []
      → text ≢ []
      → send send_message w m t true (some to) (some text)
        ≡ (not_connected connecting, create_session m t, w)
  unfolding send ensure_session
  send-first w m t [] text e a b = absurd (a refl)
  send-first w m t (c ∷ cs) [] e a b = absurd (b refl)
  send-first w m t (c ∷ cs) (d ∷ ds) e a b = ground (arith, send_over_new w m t (c ∷ cs) (d ∷ ds))
