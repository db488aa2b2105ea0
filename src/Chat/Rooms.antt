-- ===== src/Chat/Rooms.antt =====
-- chat/server.go: rooms that come into being, who may enter, and joining and leaving.
use sio.Base.{
  ℕ, Bool, true, false, ◌&&◌, ◌==◌, not, if◌then◌else◌, List, [], ◌∷◌, Option, none, some, length,
}
use sio.Base.Text.{Text, codes, text_eq, text_key, has_prefix, split}
use sio.Base.Dict.{lookup, insert, erase}
use sio.Database.{DbRoom, DbMessage}
use sio.Chat.Types.{
  MessageType, ChatMessage, Incoming, public_room, group_room, dm_room, status_delivered, history,
  messages, user_joined, user_left, presence, acknowledgment, ack,
}
use sio.Chat.Platform.{Platform}
use sio.Chat.State.{
  Client, Room, Server, in_room, put_client, send_message, send_error, send_failure,
  broadcast_to_room,
}

abbrev pub public_prefix : Text
public_prefix = codes "public:"

abbrev pub group_prefix : Text
group_prefix = codes "group:"

abbrev pub dm_prefix : Text
dm_prefix = codes "dm:"

-- The type that a room's id tells; none for "invalid room ID format".
unfoldable pub type_of_id : Text → Option Text
type_of_id id =
    if has_prefix id public_prefix
    then some public_room
    else if has_prefix id group_prefix
    then some group_room
    else if has_prefix id dm_prefix
    then some dm_room
    else none

-- strings.TrimPrefix for a prefix that is there: `n` bytes are dropped.
abbrev pub without : Text → Text → Text
without [] id = id
without (p ∷ ps) [] = []
without (p ∷ ps) (c ∷ id) = without ps id

unfoldable pub mentions : List Text → Text → Bool
mentions [] user = false
mentions (u ∷ us) user = if text_eq u user then true else mentions us user

abbrev pub new_room : ℕ → Text → Text → Room
new_room now id room_type = record {
  id = id;
  room_type = room_type;
  name = id;
  clients = [];
  created = now;
}

abbrev pub room_of : DbRoom → Room
room_of r = record {
  id = r.id;
  room_type = r.room_type;
  name = r.name;
  clients = [];
  created = r.created;
}

abbrev pub presence_message : ℕ → MessageType → Text → Client → Text → ChatMessage
presence_message now kind id c status = record {
  kind = kind;
  room_id = id;
  message_id = [];
  payload = presence (record { user_id = c.user_id; username = c.username; status = status });
  timestamp = now;
}

-- `err != nil || !allowed` refuses.
abbrev pub allows : Option Bool → Bool
allows (some b) = b
allows none = false

-- A DM room as the store gets it.
abbrev pub stored_room : ℕ → Text → Text → DbRoom
stored_room now id room_type = record {
  id = id;
  room_type = room_type;
  name = id;
  metadata = codes "{}";
  created = now;
}

module _ {D : Type 0} (p : Platform D) where
  abbrev pub keep_room : Text → Room → Server D → Option Room × Server D
  keep_room id room s = (some room, record s { rooms = insert id room s.rooms })

  -- A DM room that the store does not have is made there, and none else.
  abbrev pub after_create : Text → DbRoom → Bool × D → Server D → Option Room × Server D
  after_create id r (true, db) s = keep_room id (room_of r) (record s { db = db })
  after_create id r (false, db) s = (none, record s { db = db })

  abbrev pub from_store : ℕ → Text → Text → Option DbRoom → Server D → Option Room × Server D
  from_store now id room_type (some r) s = keep_room id (room_of r) s
  from_store now id room_type none s =
      if text_eq room_type dm_room
      then after_create id (stored_room now id room_type)
          (p.db.create_room (stored_room now id room_type) s.db) s
      else (none, s)

  abbrev pub create_by_type : ℕ → Text → Option Text → Server D → Option Room × Server D
  create_by_type now id none s = (none, s)
  create_by_type now id (some room_type) s =
      if text_eq room_type public_room
      then keep_room id (new_room now id room_type) s
      else from_store now id room_type (p.db.get_room id s.db) s

  abbrev pub or_create : ℕ → Text → Option Room → Server D → Option Room × Server D
  or_create now id (some room) s = (some room, s)
  or_create now id none s = create_by_type now id (type_of_id id) s

  unfoldable pub get_or_create_room : ℕ → Text → Server D → Option Room × Server D
  get_or_create_room now id s = or_create now id (lookup id s.rooms) s

  -- None is an error of the store.
  unfoldable pub check_room_permission : Text → Text → Server D → Option Bool
  check_room_permission user id s =
      if has_prefix id public_prefix
      then some true
      else if has_prefix id dm_prefix
      then some (mentions (split b'_' (without dm_prefix id)) user)
      else p.db.is_user_in_room id user s.db

  -- `room.Clients[client.ID] = client` on the room that the server has.
  abbrev pub enter : Text → Text → Option Room → Server D → Server D
  enter id client none s = s
  enter id client (some room) s = record s {
    rooms = insert id (record room { clients = insert client tt room.clients }) s.rooms;
  }

  abbrev pub mark_joined : Text → Client → Server D → Server D
  mark_joined id c s = put_client (record c { rooms = insert id true c.rooms }) s

  abbrev pub send_history : ℕ → Text → Text → Option (List DbMessage) → Server D → Server D
  send_history now id client none s = s
  send_history now id client (some []) s = s
  send_history now id client (some (m ∷ ms)) s =
      send_message p client
        (record {
          kind = history;
          room_id = id;
          message_id = [];
          payload = messages (m ∷ ms);
          timestamp = now;
        })
        s

  abbrev pub add_member : ℕ → Text → Client → Server D → Server D
  add_member now id c s = record s {
    db =
        (p.db.add_room_member
          (record { room_id = id; user_id = c.user_id; role = codes "member"; joined_at = now })
          s.db).1;
  }

  -- `handleJoinRoom` behind its two refusals.
  unfoldable pub join : ℕ → Text → Room → Client → Server D → Server D
  join now id room c s =
      let entered = mark_joined id c (enter id c.id (lookup id s.rooms) s) in
      let stored =
        if text_eq room.room_type public_room then entered else add_member now id c entered in
      let told = send_history now id c.id (p.db.get_messages id 50 0 stored.db) stored in
      let announced =
        broadcast_to_room p id (presence_message now user_joined id c (codes "online")) c.id told in
      send_message p c.id
        (record {
          kind = acknowledgment;
          room_id = id;
          message_id = [];
          payload = ack (record { message_id = []; status = status_delivered });
          timestamp = now;
        })
        announced

  abbrev pub join_found : ℕ → Text → Client → Option Room × Server D → Server D
  join_found now id c (none, s) = send_failure p now c.id 404 (codes "Room not found") s
  join_found now id c (some room, s) =
      if text_eq room.room_type public_room
      then join now id room c s
      else if allows (check_room_permission c.user_id id s)
      then join now id room c s
      else send_error p now c.id 403 (codes "Access denied")
          (codes "Not authorized to join this room") s

  unfoldable pub handle_join_room : ℕ → Client → Incoming → Server D → Server D
  handle_join_room now c msg s = join_found now msg.room_id c (get_or_create_room now msg.room_id s)

  -- A client out of a room; an empty room that is not public goes.
  abbrev pub take_out : Text → Text → Option Room → Server D → Server D
  take_out id client none s = s
  take_out id client (some room) s =
      let left = erase client room.clients in
      let rooms' = insert id (record room { clients = left }) s.rooms in
      record s {
        rooms =
            if length left == 0 && not (text_eq room.room_type public_room)
            then erase id rooms'
            else rooms';
      }

  abbrev pub mark_left : Text → Client → Server D → Server D
  mark_left id c s = put_client (record c { rooms = erase id c.rooms }) s

  unfoldable pub leave : ℕ → Text → Client → Server D → Server D
  leave now id c s =
      let out = mark_left id c (take_out id c.id (lookup id s.rooms) s) in
      let stored =
        if has_prefix id public_prefix
        then out
        else record out { db = (p.db.remove_room_member id c.user_id out.db).1 } in
      broadcast_to_room p id (presence_message now user_left id c (codes "offline")) c.id stored

  unfoldable pub handle_leave_room : ℕ → Client → Incoming → Server D → Server D
  handle_leave_room now c msg s =
      if in_room msg.room_id c
      then leave now msg.room_id c s
      else send_error p now c.id 400 (codes "Not in room") (codes "You are not in this room") s
