-- ===== src/Websocket/Handshake.antt =====
-- The opening handshake of websocket/websocket.go, on the server and on the client.
-- Requests and responses hold what `Header.Get` returns. SHA-1 with base64 is a parameter.
pub mod Validation
pub mod Subprotocol
mod Examples
use sio.Base.{
  ℕ, Bool, true, false, not, ◌&&◌, ◌||◌, List, [], ◌∷◌, ◌++◌, if◌then◌else◌, ◌==◌, length, Option,
  none, some,
}
use sio.Base.Text.{Text, codes, text_eq, contains, has_prefix, to_lower, split, trim_space}
use sio.Websocket.Types.{Error, invalid_handshake, origin_not_allowed, subprotocol_mismatch}

pub record Request : Type 0 where
  pub method : Text
  pub upgrade : Text
  pub connection : Text
  pub version : Text
  pub key : Text
  pub origin : Text
  pub protocols : List Text
  pub extensions : Text

-- The callbacks and lists of Config that the handshake reads; `none` is nil.
pub record Policy : Type 0 where
  pub check_origin : Option (Request → Bool)
  pub check_auth : Option (Request → Bool)
  pub subprotocols : List Text
  pub enable_compression : Bool

pub record Response : Type 0 where
  pub status : ℕ
  pub upgrade : Text
  pub connection : Text
  pub accept : Text
  pub protocol : Text
  pub extensions : Text

abbrev pub asks_upgrade : Text → Bool
asks_upgrade connection = contains (to_lower connection) (codes "upgrade")

-- `check != nil && !check(req)`
abbrev pub refuses : Option (Request → Bool) → Request → Bool
refuses none req = false
refuses (some check) req = not (check req)

-- `none` is a nil error.
unfoldable pub validate_handshake : Policy → Request → Option Error
validate_handshake policy req =
    if not (text_eq req.method (codes "GET"))
    then some invalid_handshake
    else if not (text_eq req.upgrade (codes "websocket"))
    then some invalid_handshake
    else if not (asks_upgrade req.connection)
    then some invalid_handshake
    else if not (text_eq req.version (codes "13"))
    then some invalid_handshake
    else if text_eq req.key []
    then some invalid_handshake
    else if refuses policy.check_origin req
    then some origin_not_allowed
    else if refuses policy.check_auth req
    then some invalid_handshake
    else none

unfoldable pub is_websocket_upgrade : Request → Bool
is_websocket_upgrade req =
    text_eq req.upgrade (codes "websocket")
    && asks_upgrade req.connection
    && text_eq req.version (codes "13")
    && not (text_eq req.key [])

abbrev magic_string : Text
magic_string = codes "258EAFA5-E914-47DA-95CA-C5AB0DC85B11"

-- `generateAcceptKey` of the server and of the client; `digest` is base64 of SHA-1.
unfoldable pub generate_accept_key : (Text → Text) → Text → Text
generate_accept_key digest key = digest (key ++ magic_string)

-- The three loops of `negotiateSubprotocol`, the inner one first.
unfoldable pub match_server : Text → List Text → Option Text
match_server proto [] = none
match_server proto (server ∷ servers) =
    if text_eq proto server then some proto else match_server proto servers

unfoldable pub match_list : List Text → List Text → Option Text
match_list [] servers = none
match_list (proto ∷ protos) servers = elim (match_server (trim_space proto) servers) [
  | some p ↦ some p
  | none ↦ match_list protos servers
]

unfoldable pub match_headers : List Text → List Text → Option Text
match_headers [] servers = none
match_headers (header ∷ headers) servers = elim (match_list (split b',' header) servers) [
  | some p ↦ some p
  | none ↦ match_headers headers servers
]

-- The empty text stands for no subprotocol.
unfoldable pub negotiate_subprotocol : Policy → Request → Text
negotiate_subprotocol policy req =
    if length policy.subprotocols == 0
    then []
    else elim (match_headers req.protocols policy.subprotocols) [ some p ↦ p | none ↦ [] ]

-- The loop over the offered extensions in `upgrade`.
unfoldable pub find_deflate : List Text → Option Text
find_deflate [] = none
find_deflate (ext ∷ exts) =
    if has_prefix (trim_space ext) (codes "permessage-deflate")
    then some (trim_space ext)
    else find_deflate exts

unfoldable pub negotiate_compression : Policy → Request → Option Text
negotiate_compression policy req =
    if policy.enable_compression && not (text_eq req.extensions [])
    then find_deflate (split b',' req.extensions)
    else none

-- The response that `upgrade` writes, by its headers, or the error of `validateHandshake`.
unfoldable pub respond : (Text → Text) → Policy → Request → Option Response
respond digest policy req = elim (validate_handshake policy req) [
  | some e ↦ none
  | none ↦ some (record {
    status = 101;
    upgrade = codes "websocket";
    connection = codes "Upgrade";
    accept = generate_accept_key digest req.key;
    protocol = negotiate_subprotocol policy req;
    extensions = elim (negotiate_compression policy req) [
      | some ext ↦ codes "permessage-deflate"
      | none ↦ []
    ];
  })
]

-- The status line of `writeHandshakeError`.
unfoldable error_status : Error → Text
error_status origin_not_allowed = codes "403 Forbidden"
error_status subprotocol_mismatch = codes "400 Bad Request"
error_status other = codes "400 Bad Request"

-- The client's check of the response to the key that it sent.
unfoldable pub validate_response : (Text → Text) → Response → Text → Option Error
validate_response digest resp key =
    if not (resp.status == 101)
    then some invalid_handshake
    else if not (text_eq resp.upgrade (codes "websocket"))
    then some invalid_handshake
    else if not (asks_upgrade resp.connection)
    then some invalid_handshake
    else if not (text_eq resp.accept (generate_accept_key digest key))
    then some invalid_handshake
    else none
