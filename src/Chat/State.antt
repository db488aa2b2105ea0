-- ===== src/Chat/State.antt =====
-- chat/server.go: the state of the server, and what it writes to clients.
use sio.Base.Names.{Names}
use sio.Base.{ℕ, Bool, false, if◌then◌else◌, List, [], ◌∷◌, ◌++◌, Option, none, some}
use sio.Base.Text.{Text, text_eq, text_key}
use sio.Base.Dict.{lookup, insert}
use sio.Websocket.Types.{Conn, Result, ok, err, stuck}
use sio.Websocket.Message.{write_text}
use sio.Chat.Types.{ChatMessage, RateLimit, FileSharePayload, MediaSharePayload, error, failure}
use sio.Chat.Platform.{Platform}

pub record Client : Type 0 where
  pub id : Text
  pub user_id : Text
  pub username : Text
  pub conn : Conn
  pub rooms : List (Text × Bool)
  pub last_seen : ℕ
  pub is_typing : List (Text × Bool)

-- The clients of a room are pointers, here the ids of the objects.
pub record Room : Type 0 where
  pub id : Text
  pub room_type : Text
  pub name : Text
  pub clients : Names
  pub created : ℕ

pub record SessionState : Type 0 where
  pub session_id : Text
  pub user_id : Text
  pub username : Text
  pub rooms : List Text
  pub last_seen : ℕ

-- `objects` are the Client objects, by id, as the pointers to them see them: an object outlives its
-- removal from `clients`. `leaving` are the calls of `handleClientDisconnect` that a failed write
-- has started in a goroutine, `sessions` what has been written to Redis.
pub record Server (D : Type 0) : Type 0 where
  pub objects : List (Text × Client)
  pub clients : Names
  pub rooms : List (Text × Room)
  pub rate_limiters : List (Text × RateLimit)
  pub typing_clients : List (Text × List (Text × ℕ))
  pub pending_file_meta : List (Text × FileSharePayload)
  pub pending_media_meta : List (Text × MediaSharePayload)
  pub db : D
  pub leaving : List Text
  pub sessions : List (Text × SessionState)

abbrev pub present : Option Bool → Bool
present (some b) = b
present none = false

-- `client.Rooms[roomID]`
unfoldable pub in_room : Text → Client → Bool
in_room room c = present (lookup room c.rooms)

module _ {D : Type 0} where
  -- A change of a client object.
  abbrev pub put_client : Client → Server D → Server D
  put_client c s = record s { objects = insert c.id c s.objects }

  -- `WriteText` on the client's connection, and the goroutine that a failure starts.
  abbrev pub after_write : Client → Result (Unit {0}) × Conn → Server D → Server D
  after_write c (ok u, conn') s = put_client (record c { conn = conn' }) s
  after_write c (err e, conn') s = record (put_client (record c { conn = conn' }) s) {
    leaving = s.leaving ++ c.id ∷ [];
  }
  after_write c (stuck, conn') s = put_client (record c { conn = conn' }) s

  module _ (p : Platform D) where
    abbrev pub deliver_to : List ℕ → Option Client → Server D → Server D
    deliver_to bytes none s = s
    deliver_to bytes (some c) s = after_write c (write_text p.net bytes c.conn) s

    unfoldable pub deliver : List ℕ → Text → Server D → Server D
    deliver bytes id s = deliver_to bytes (lookup id s.objects) s

    unfoldable pub deliver_all : List ℕ → Text → Names → Server D → Server D
    deliver_all bytes except [] s = s
    deliver_all bytes except ((id, u) ∷ ids) s =
        deliver_all bytes except ids (if text_eq id except then s else deliver bytes id s)

    abbrev pub send_encoded : Option (List ℕ) → Text → Server D → Server D
    send_encoded none id s = s
    send_encoded (some bytes) id s = deliver bytes id s

    unfoldable pub send_message : Text → ChatMessage → Server D → Server D
    send_message id msg s = send_encoded (p.json.encode msg) id s

    abbrev pub broadcast_encoded : Option (List ℕ) → Option Room → Text → Server D → Server D
    broadcast_encoded bytes none except s = s
    broadcast_encoded none (some room) except s = s
    broadcast_encoded (some bytes) (some room) except s = deliver_all bytes except room.clients s

    unfoldable pub broadcast_to_room : Text → ChatMessage → Text → Server D → Server D
    broadcast_to_room room msg except s =
        broadcast_encoded (p.json.encode msg) (lookup room s.rooms) except s

    unfoldable pub send_error : ℕ → Text → ℕ → Text → Text → Server D → Server D
    send_error now id code message details s =
        send_message id
          (record {
            kind = error;
            room_id = [];
            message_id = [];
            payload = failure (record { code = code; message = message; details = details });
            timestamp = now;
          })
          s

    -- With the text of the error as the details.
    unfoldable pub send_failure : ℕ → Text → ℕ → Text → Server D → Server D
    send_failure now id code message s = send_error now id code message (p.reason now message) s
