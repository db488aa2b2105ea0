-- ===== src/Websocket/Handshake/Validation.antt =====
-- Which requests are upgraded, and that the two sides agree.
use sio.Base.{◌≡◌, refl, ◌↔◌, true, false, none, some, arith, if◌then◌else◌}
use sio.Base.Text.{Text, codes, text_eq, text_eq_iff, contains, to_lower}
use sio.Websocket.Types.{invalid_handshake, origin_not_allowed}
use sio.Websocket.Handshake.{
  Request, Policy, Response, asks_upgrade, refuses, validate_handshake, is_websocket_upgrade,
  generate_accept_key, respond, validate_response,
}

-- A request passes exactly when it is a GET that `IsWebSocketUpgrade` recognises and neither
-- callback refuses it.
pub validate_handshake-none :
    (policy : Policy) (req : Request)
    → (validate_handshake policy req ≡ none) ↔ (
        (text_eq req.method (codes "GET") ≡ true)
        × (is_websocket_upgrade req ≡ true)
        × (refuses policy.check_origin req ≡ false)
        × (refuses policy.check_auth req ≡ false))
unfolding validate_handshake is_websocket_upgrade
validate_handshake-none policy req = (λ e. ground arith, λ h. ground arith)

-- ErrOriginNotAllowed, and with it the status 403, is given exactly to a well-formed upgrade
-- request from an origin that the callback refuses; the callback for authentication is not asked.
pub validate_handshake-origin :
    (policy : Policy) (req : Request)
    → (validate_handshake policy req ≡ some origin_not_allowed) ↔ (
        (text_eq req.method (codes "GET") ≡ true)
        × (is_websocket_upgrade req ≡ true)
        × (refuses policy.check_origin req ≡ true))
unfolding validate_handshake is_websocket_upgrade
validate_handshake-origin policy req = (λ e. ground arith, λ h. ground arith)

respond_fields :
    (digest : Text → Text) (policy : Policy) (req : Request) (resp : Response)
    → respond digest policy req ≡ some resp
    → (resp.status ≡ 101)
      × (resp.upgrade ≡ codes "websocket")
      × (resp.connection ≡ codes "Upgrade")
      × (resp.accept ≡ generate_accept_key digest req.key)
unfolding respond
respond_fields digest policy req resp e = ground arith

-- With the headers that the server writes, only the accept key is left to check.
validate_written :
    (digest : Text → Text) (resp : Response) (key : Text)
    → resp.status ≡ 101
    → resp.upgrade ≡ codes "websocket"
    → resp.connection ≡ codes "Upgrade"
    → validate_response digest resp key ≡ (
        if text_eq resp.accept (generate_accept_key digest key)
        then none
        else some invalid_handshake)
unfolding validate_response
validate_written digest resp key s u c =
    let upgrade : text_eq (codes "websocket") (codes "websocket") ≡ true = unfold text_eq in refl in
    let connection : asks_upgrade (codes "Upgrade") ≡ true = unfold contains to_lower in refl in
    ground (arith, upgrade, connection)

-- The server answers a valid request with a response that the client's check accepts for exactly
-- those keys that have the digest of the key in the request; for the key sent, in particular.
pub validate_response-respond :
    (digest : Text → Text) (policy : Policy) (req : Request) (resp : Response) (key : Text)
    → respond digest policy req ≡ some resp
    → (validate_response digest resp key ≡ none)
      ↔ (generate_accept_key digest req.key ≡ generate_accept_key digest key)
validate_response-respond digest policy req resp key e =
    let (s, u, c, a) = respond_fields digest policy req resp e in
    let written = validate_written digest resp key s u c in
    let same = text_eq_iff resp.accept (generate_accept_key digest key) in
    (λ h. ground (arith, written, same.0, a), λ h. ground (arith, written, same.1, a))
