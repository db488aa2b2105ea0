-- ===== src/Chat/Quiet.antt =====
-- Writing to clients keeps the invariant, and changes no room.
use sio.Base.Names.{Names}
use sio.Base.{
  ℕ, ◌≡◌, refl, ap, sym, ◌∙◌, Bool, true, false, if◌then◌else◌, List, [], ◌∷◌, Option, none, some,
}
use sio.Base.Text.{Text, text_eq, text_key}
use sio.Base.Dict.{lookup}
use sio.Websocket.Types.{Conn, Result, ok, err, stuck}
use sio.Websocket.Message.{write_text}
use sio.Chat.Types.{ChatMessage}
use sio.Chat.Platform.{Platform}
use sio.Chat.State.{
  Client, Room, Server, in_room, put_client, after_write, deliver_to, deliver, deliver_all,
  send_encoded, send_message, broadcast_encoded, broadcast_to_room, send_error, send_failure,
}
use sio.Chat.Sound.{IsSound, known, put-IsSound}

abbrev pub Holds : {D : Type 0} → Server D → Type 0
Holds s = IsSound s.objects s.rooms

pub stands :
    {D : Type 0} (s : Server D) (id : Text) (c : Client)
    → Holds s
    → lookup id s.objects ≡ some c
    → lookup c.id s.objects ≡ some c
stands s id c w e = ap (λ i. lookup i s.objects) (w.keyed id c e) ∙ e

-- A change of an object that leaves it in its rooms.
pub put_client-Holds :
    {D : Type 0} (c d : Client) (s : Server D)
    → Holds s
    → lookup d.id s.objects ≡ some c
    → ((room : Text) → in_room room c ≡ true → in_room room d ≡ true)
    → Holds (put_client d s)
put_client-Holds c d s w e keeps =
    put-IsSound d s.objects s.rooms w (λ room h. keeps room (sym (ap (known room) e) ∙ h))

module _ {D : Type 0} where
  after_write-Holds :
      (c : Client) (answer : Result (Unit {0}) × Conn) (s : Server D)
      → Holds s
      → lookup c.id s.objects ≡ some c
      → Holds (after_write c answer s)
  unfolding in_room
  after_write-Holds c (ok u, conn') s w e =
      put_client-Holds c (record c { conn = conn' }) s w e (λ room h. h)
  after_write-Holds c (err x, conn') s w e =
      put_client-Holds c (record c { conn = conn' }) s w e (λ room h. h)
  after_write-Holds c (stuck, conn') s w e =
      put_client-Holds c (record c { conn = conn' }) s w e (λ room h. h)

  after_write-rooms :
      (c : Client) (answer : Result (Unit {0}) × Conn) (s : Server D)
      → (after_write c answer s).rooms ≡ s.rooms
  after_write-rooms c (ok u, conn') s = refl
  after_write-rooms c (err x, conn') s = refl
  after_write-rooms c (stuck, conn') s = refl

  module _ (p : Platform D) where
    pub deliver-Holds :
        (bytes : List ℕ) (id : Text) (s : Server D) → Holds s → Holds (deliver p bytes id s)
    unfolding deliver
    deliver-Holds bytes id s w = by_client (lookup id s.objects) refl
      where
        by_client : (o : Option Client) → lookup id s.objects ≡ o → Holds (deliver_to p bytes o s)
        by_client none e = w
        by_client (some c) e =
            after_write-Holds c (write_text p.net bytes c.conn) s w (stands s id c w e)

    deliver_all-Holds :
        (bytes : List ℕ) (except : Text) (ids : Names) (s : Server D)
        → Holds s
        → Holds (deliver_all p bytes except ids s)
    unfolding deliver_all
    deliver_all-Holds bytes except [] s w = w
    deliver_all-Holds bytes except ((id, u) ∷ ids) s w =
        deliver_all-Holds bytes except ids (if text_eq id except then s else deliver p bytes id s)
          (by_name (text_eq id except))
      where
        by_name : (b : Bool) → Holds (if b then s else deliver p bytes id s)
        by_name true = w
        by_name false = deliver-Holds bytes id s w

    pub send_message-Holds :
        (id : Text) (msg : ChatMessage) (s : Server D) → Holds s → Holds (send_message p id msg s)
    unfolding send_message
    send_message-Holds id msg s w = by_bytes (p.json.encode msg)
      where
        by_bytes : (o : Option (List ℕ)) → Holds (send_encoded p o id s)
        by_bytes none = w
        by_bytes (some bytes) = deliver-Holds bytes id s w

    pub broadcast-Holds :
        (room : Text) (msg : ChatMessage) (except : Text) (s : Server D)
        → Holds s
        → Holds (broadcast_to_room p room msg except s)
    unfolding broadcast_to_room
    broadcast-Holds room msg except s w = by_parts (p.json.encode msg) (lookup room s.rooms)
      where
        by_parts :
            (o : Option (List ℕ)) (r : Option Room) → Holds (broadcast_encoded p o r except s)
        by_parts o none = w
        by_parts none (some r) = w
        by_parts (some bytes) (some r) = deliver_all-Holds bytes except r.clients s w

    pub send_error-Holds :
        (now : ℕ) (id : Text) (code : ℕ) (message details : Text) (s : Server D)
        → Holds s
        → Holds (send_error p now id code message details s)
    unfolding send_error
    send_error-Holds now id code message details s w = send_message-Holds id _ s w

    pub send_failure-Holds :
        (now : ℕ) (id : Text) (code : ℕ) (message : Text) (s : Server D)
        → Holds s
        → Holds (send_failure p now id code message s)
    unfolding send_failure
    send_failure-Holds now id code message s w = send_error-Holds now id code message _ s w

    deliver-rooms :
        (bytes : List ℕ) (id : Text) (s : Server D) → (deliver p bytes id s).rooms ≡ s.rooms
    unfolding deliver
    deliver-rooms bytes id s = by_client (lookup id s.objects)
      where
        by_client : (o : Option Client) → (deliver_to p bytes o s).rooms ≡ s.rooms
        by_client none = refl
        by_client (some c) = after_write-rooms c (write_text p.net bytes c.conn) s

    pub send_message-rooms :
        (id : Text) (msg : ChatMessage) (s : Server D) → (send_message p id msg s).rooms ≡ s.rooms
    unfolding send_message
    send_message-rooms id msg s = by_bytes (p.json.encode msg)
      where
        by_bytes : (o : Option (List ℕ)) → (send_encoded p o id s).rooms ≡ s.rooms
        by_bytes none = refl
        by_bytes (some bytes) = deliver-rooms bytes id s

    deliver_all-rooms :
        (bytes : List ℕ) (except : Text) (ids : Names) (s : Server D)
        → (deliver_all p bytes except ids s).rooms ≡ s.rooms
    unfolding deliver_all
    deliver_all-rooms bytes except [] s = refl
    deliver_all-rooms bytes except ((id, u) ∷ ids) s =
        deliver_all-rooms bytes except ids (if text_eq id except then s else deliver p bytes id s)
        ∙ by_name (text_eq id except)
      where
        by_name : (b : Bool) → (if b then s else deliver p bytes id s).rooms ≡ s.rooms
        by_name true = refl
        by_name false = deliver-rooms bytes id s

    pub broadcast-rooms :
        (room : Text) (msg : ChatMessage) (except : Text) (s : Server D)
        → (broadcast_to_room p room msg except s).rooms ≡ s.rooms
    unfolding broadcast_to_room
    broadcast-rooms room msg except s = by_parts (p.json.encode msg) (lookup room s.rooms)
      where
        by_parts :
            (o : Option (List ℕ)) (r : Option Room)
            → (broadcast_encoded p o r except s).rooms ≡ s.rooms
        by_parts o none = refl
        by_parts none (some r) = refl
        by_parts (some bytes) (some r) = deliver_all-rooms bytes except r.clients s
