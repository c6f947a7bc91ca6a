-- ===== src/WaGateway/Server.antt =====
-- wa-gateway/src/server.ts: the authentication hook and the route handlers. `W` is the world of the
-- messaging library: `send_message` takes a socket, an address and a text. What a handler waits for
-- (a new session, a QR code) is an argument that says how the wait ends.
pub mod Laws
pub mod Bulk
use rr_net.Prelude.{
  ℕ, Bool, true, false, not, ◌&&◌, ◌||◌, List, [], ◌∷◌, map, Option, none, some, String, str_eq,
  if◌then◌else◌, length, Text, truthy,
}
use rr_net.WaGateway.Text.{normalize_msisdn, to_jid}
use rr_net.WaGateway.Session.{
  SessionStatus, SessionSnapshot, connected, connecting, needs_qr, disconnected, Manager, has_qr,
  snapshot, status, get_socket, ensure_session, reset_session,
}

abbrev pub or_null {ℓ} : {A : Type ℓ} → Option A → A → A
or_null none d = d
or_null (some a) d = a

-- The hook's reply, `none` when the request goes on.
unfoldable pub pre_handler : String → Bool → Option String → Option ℕ
pre_handler admin_token production header =
    if truthy admin_token
    then (if str_eq (or_null header "") admin_token then none else some 401)
    else (if production then some 500 else none)

pub record Message : Type 0 where
  pub to : Text
  pub text : Text

-- The shapes of the body of a bulk request; any other body is `invalid`.
pub data BulkRequest : Type 0 where
  messages : List Message → BulkRequest
  broadcast : List Text → Text → BulkRequest
  invalid : BulkRequest

pub record BulkResult : Type 0 where
  pub to : Text
  pub ok : Bool
  pub message_id : Option String
  pub error : Option String

pub data Reply : Type 0 where
  -- 400
  bad_request : Reply
  -- 409, with the status
  not_connected : SessionStatus → Reply
  -- 500: "socket not available"
  no_socket : Reply
  -- An exception that no handler catches: the framework's 500.
  uncaught : Reply
  sent : Option String → Reply
  bulk : ℕ → List BulkResult → Reply

-- How one call of `sendMessage` ends: with the id of the message, or by an exception and its text.
pub data Delivery : Type 0 where
  accepted : Option String → Delivery
  refused : Option String → Delivery

abbrev pub is_connected : SessionStatus → Bool
is_connected connected = true
is_connected _ = false

abbrev pub is_blank : Option Text → Bool
is_blank none = true
is_blank (some []) = true
is_blank (some (c ∷ cs)) = false

abbrev or_message : Option String → String
or_message none = "send failed"
or_message (some e) = if truthy e then e else "send failed"

abbrev delivery_reply : Delivery → Reply
delivery_reply (accepted id) = sent id
delivery_reply (refused e) = uncaught

abbrev delivery_result : Text → Delivery → BulkResult
delivery_result to (accepted id) = record { to = to; ok = true; message_id = id; error = none }
delivery_result to (refused e) = record {
  to = to;
  ok = false;
  message_id = none;
  error = some (or_message e);
}

module _ {W : Type 0} (send_message : W → ℕ → Text → Text → Delivery × W) where
  deliver : W → ℕ → Text → Text → Reply × W
  deliver w sock to text = elim (normalize_msisdn to) [
    | none ↦ (uncaught, w)
    | some msisdn ↦ let (d, w') = send_message w sock (to_jid msisdn) text in (delivery_reply d, w')
  ]

  send_over : W → Manager → String → Text → Text → Reply × W
  unfolding deliver
  send_over w m tenant_id to text =
      if is_connected (status m tenant_id)
      then (elim (get_socket m tenant_id) [
        | none ↦ (no_socket, w)
        | some sock ↦ deliver w sock to text
      ])
      else (not_connected (status m tenant_id), w)

  -- POST /v1/tenants/:tenantId/send
  unfoldable pub send :
      W → Manager → String → Bool → Option Text → Option Text → Reply × Manager × W
  unfolding send_over
  send w m tenant_id opens to text =
      if is_blank to || is_blank text
      then (bad_request, m, w)
      else (elim (ensure_session m tenant_id opens) [
        | none ↦ (uncaught, m, w)
        | some m' ↦
            let (reply, w') = send_over w m' tenant_id (or_null to []) (or_null text []) in
            (reply, m', w')
      ])

  -- One round of the loop over the messages.
  pub send_one : W → ℕ → Message → BulkResult × W
  send_one w sock msg = elim (normalize_msisdn msg.to) [
    | none ↦ (
      record { to = msg.to; ok = false; message_id = none; error = some "Invalid phone number" },
      w,
    )
    | some msisdn ↦
        let (d, w') = send_message w sock (to_jid msisdn) msg.text in (delivery_result msg.to d, w')
  ]

  pub send_each : W → ℕ → List Message → List BulkResult × W
  send_each w sock [] = ([], w)
  send_each w sock (msg ∷ rest) =
      let (r, w') = send_one w sock msg in let (rs, w'') = send_each w' sock rest in (r ∷ rs, w'')

  bulk_over : W → ℕ → BulkRequest → Reply × W
  bulk_over w sock invalid = (bad_request, w)
  bulk_over w sock (messages ms) = let (rs, w') = send_each w sock ms in (bulk (length rs) rs, w')
  bulk_over w sock (broadcast tos text) =
      let (rs, w') = send_each w sock (map (λ to. record { to = to; text = text }) tos) in
      (bulk (length rs) rs, w')

  -- POST /v1/tenants/:tenantId/send-bulk
  unfoldable pub send_bulk : W → Manager → String → Bool → BulkRequest → Reply × Manager × W
  unfolding bulk_over
  send_bulk w m tenant_id opens body = elim (ensure_session m tenant_id opens) [
    | none ↦ (uncaught, m, w)
    | some m' ↦
        if is_connected (status m' tenant_id)
        then (elim (get_socket m' tenant_id) [
          | none ↦ (no_socket, m', w)
          | some sock ↦ let (reply, w') = bulk_over w sock body in (reply, m', w')
        ])
        else (not_connected (status m' tenant_id), m', w)
  ]

pub record ConnectReply : Type 0 where
  pub tenant_id : String
  pub status : SessionStatus
  pub qr : Option String
  pub qr_updated_at : Option ℕ

abbrev coalesce {ℓ} : {A : Type ℓ} → Option A → Option A → Option A
coalesce none b = b
coalesce (some a) b = some a

connect_reply : String → SessionSnapshot → Option String → ConnectReply
connect_reply tenant_id after qr = record {
  tenant_id = tenant_id;
  status = if has_qr (coalesce qr after.last_qr) then needs_qr else after.status;
  qr = coalesce qr after.last_qr;
  qr_updated_at = after.last_qr_at;
}

-- GET /v1/tenants/:tenantId/qr
unfoldable pub get_qr : Manager → String → ConnectReply
get_qr m tenant_id = elim (snapshot m tenant_id) [
  | none ↦ record { tenant_id = tenant_id; status = disconnected; qr = none; qr_updated_at = none }
  | some snap ↦ record {
    tenant_id = tenant_id;
    status = if has_qr snap.last_qr then needs_qr else snap.status;
    qr = snap.last_qr;
    qr_updated_at = snap.last_qr_at;
  }
]

abbrev snapshot_connected : Option SessionSnapshot → Bool
snapshot_connected none = false
snapshot_connected (some snap) = is_connected snap.status

-- A wait for a QR code: what it ends with, and the manager as it then is.
abbrev pub Wait : Type 0
Wait = Manager → Option String × Manager

connect_wait : Manager → SessionSnapshot → Wait → Option String × Manager
connect_wait m snap wait =
    if not (has_qr snap.last_qr) && not (is_connected snap.status)
    then wait m
    else (snap.last_qr, m)

-- The automatic reset, `none` when the new session cannot be created.
connect_reset :
    Manager
    → String
    → SessionSnapshot
    → Option String
    → Bool
    → Wait
    → Option (Option String × Manager)
connect_reset m tenant_id snap qr opens wait =
    if not (has_qr qr) && not (is_connected snap.status)
    then (elim (reset_session m tenant_id opens) [
      | none ↦ none
      | some m' ↦
          if snapshot_connected (snapshot m' tenant_id) then some (qr, m') else some (wait m')
    ])
    else some (qr, m)

connect_from :
    Manager → String → SessionSnapshot → Wait → Bool → Wait → Option (ConnectReply × Manager)
unfolding connect_wait connect_reset connect_reply
connect_from m tenant_id snap wait reopens again =
    let (qr, m') = connect_wait m snap wait in
    elim (connect_reset m' tenant_id snap qr reopens again) [
      | none ↦ none
      | some (qr', m'') ↦
          some (connect_reply tenant_id (or_null (snapshot m'' tenant_id) snap) qr', m'')
    ]

-- POST /v1/tenants/:tenantId/connect, `none` for an exception.
unfoldable pub connect :
    Manager
    → String
    → (opens : Bool) → Wait
    → (reopens : Bool) → Wait
    → Option (ConnectReply × Manager)
unfolding connect_from
connect m tenant_id opens wait reopens again = elim (ensure_session m tenant_id opens) [
  | none ↦ none
  | some m' ↦ elim (snapshot m' tenant_id) [
    | none ↦ none
    | some snap ↦ connect_from m' tenant_id snap wait reopens again
  ]
]
