-- ===== src/Websocket/Handshake/Examples.antt =====
-- The handshake at concrete requests.
use sio.Base.{◌≡◌, refl, ◌↔◌, ◌⊎◌, true, false, [], ◌∷◌, some, none}
use sio.Base.Text.{Text, codes, text_eq, contains, to_lower, split, trim_space}
use sio.Websocket.Handshake.{
  Request, Policy, Response, refuses, validate_handshake, is_websocket_upgrade, generate_accept_key,
  match_server, match_list, match_headers, negotiate_subprotocol, negotiate_compression, respond,
  validate_response,
}
use sio.Websocket.Handshake.Validation.{validate_handshake-none, validate_response-respond}
use sio.Websocket.Handshake.Subprotocol.{IsFirst, NoneOf, offers, negotiate_subprotocol-IsFirst}

abbrev request : Request
request = record {
  method = codes "GET";
  upgrade = codes "websocket";
  connection = codes "keep-alive, Upgrade";
  version = codes "13";
  key = codes "dGhlIHNhbXBsZSBub25jZQ==";
  origin = codes "http://example.com";
  protocols = codes "chat, superchat" ∷ [];
  extensions = [];
}

abbrev policy : Policy
policy = record {
  check_origin = none;
  check_auth = none;
  subprotocols = codes "superchat" ∷ codes "chat" ∷ [];
  enable_compression = false;
}

request_passes : validate_handshake policy request ≡ none
unfolding validate_handshake text_eq contains to_lower
request_passes = refl

-- The client's order decides, not the server's.
chooses_chat : negotiate_subprotocol policy request ≡ codes "chat"
unfolding negotiate_subprotocol match_headers match_list match_server split trim_space text_eq
chooses_chat = refl

validate_handshake-none_example : (validate_handshake policy request ≡ none) ↔ (
    (text_eq request.method (codes "GET") ≡ true)
    × (is_websocket_upgrade request ≡ true)
    × (refuses policy.check_origin request ≡ false)
    × (refuses policy.check_auth request ≡ false))
validate_handshake-none_example = validate_handshake-none policy request

abbrev strict : Policy
strict = record policy { check_origin = some (λ r. text_eq r.origin (codes "http://other.org")) }

abbrev digest : Text → Text
digest t = t

abbrev response : Response
response = record {
  status = 101;
  upgrade = codes "websocket";
  connection = codes "Upgrade";
  accept = codes "dGhlIHNhbXBsZSBub25jZQ==258EAFA5-E914-47DA-95CA-C5AB0DC85B11";
  protocol = codes "chat";
  extensions = [];
}

request_answered : respond digest policy request ≡ some response
unfolding respond validate_handshake generate_accept_key negotiate_subprotocol negotiate_compression
    match_headers match_list match_server split trim_space text_eq contains to_lower
request_answered = refl

validate_response-respond_example :
    (validate_response digest response request.key ≡ none)
    ↔ (generate_accept_key digest request.key ≡ generate_accept_key digest request.key)
validate_response-respond_example =
    validate_response-respond digest policy request response request.key request_answered

negotiate_subprotocol-IsFirst_example :
    IsFirst (negotiate_subprotocol policy request) (offers request.protocols) policy.subprotocols
    ⊎ (NoneOf (offers request.protocols) policy.subprotocols
        × (negotiate_subprotocol policy request ≡ []))
negotiate_subprotocol-IsFirst_example = negotiate_subprotocol-IsFirst policy request
