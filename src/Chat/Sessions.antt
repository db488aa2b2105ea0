-- ===== src/Chat/Sessions.antt =====
-- chat/server.go: clients that come and go.
use sio.Base.{
  ℕ, ◌%◌, ◌/◌, ◌^◌, ℤ, pos, Bool, true, if◌then◌else◌, List, [], ◌∷◌, ◌++◌, map, Option, none, some,
}
use sio.Base.Text.{Text, codes, text_eq, text_key}
use sio.Base.Dict.{lookup, insert, erase}
use sio.Websocket.Types.{Conn}
use sio.Chat.Types.{user_left, public_room}
use sio.Chat.Platform.{Platform}
use sio.Chat.State.{Client, Server, SessionState, broadcast_to_room}
use sio.Chat.Rooms.{presence_message, take_out, new_room}
use sio.Chat.Limits.{generate_client_id, unix}

abbrev pub session_key : Text → Text
session_key id = codes "session:" ++ id

-- The keys of a map whose values are true, for those rooms.
unfoldable pub joined_all : List Text → List (Text × Bool)
joined_all [] = []
joined_all (id ∷ ids) = insert id true (joined_all ids)

abbrev pub session_of : Text → ℕ → Client → SessionState
session_of session_id now c = record {
  session_id = session_id;
  user_id = c.user_id;
  username = c.username;
  rooms = map (λ e. e.0) c.rooms;
  last_seen = now;
}

-- The client object for a connection, with what a session brings back.
unfoldable pub new_client : Text → Text → Text → ℕ → Conn → Option SessionState → Client
new_client id user_id username now conn none = record {
  id = id;
  user_id = user_id;
  username = username;
  conn = conn;
  rooms = [];
  last_seen = now;
  is_typing = [];
}
new_client id user_id username now conn (some session) = record {
  id = id;
  user_id = session.user_id;
  username = session.username;
  conn = conn;
  rooms = joined_all session.rooms;
  last_seen = now;
  is_typing = [];
}

abbrev pub default_user_id : (ℤ → Text) → ℕ → Text
default_user_id decimal now = codes "user_" ++ decimal (unix now)

abbrev pub default_username : (ℤ → Text) → ℕ → Text
default_username decimal now = codes "User_" ++ decimal (pos (now / 10 ^ 9 % 1000))

abbrev pub random_session : List ℕ → (List ℕ → Text) → Text → Text
random_session random hex proto = if text_eq proto [] then hex random else proto

unfoldable pub drop_typing : Text → List (Text × List (Text × ℕ)) → List (Text × List (Text × ℕ))
drop_typing client [] = []
drop_typing client ((room, ts) ∷ m) = (room, erase client ts) ∷ drop_typing client m

module _ {D : Type 0} (p : Platform D) where
  -- `handleNewConnectionWithUser`; `restored` is what Redis has for the session, if anything.
  unfoldable pub handle_new_connection_with_user :
      ℕ → Text → Conn → Text → Text → Text → Option SessionState → Server D → Server D
  handle_new_connection_with_user now id conn user_id username session_id restored s =
      let c = new_client id user_id username now conn restored in
      record s {
        objects = insert id c s.objects;
        clients = insert id tt s.clients;
        sessions = s.sessions ++ (session_key session_id, session_of session_id now c) ∷ [];
      }

  -- `handleNewConnection`: the session's name is the subprotocol, or drawn at random.
  unfoldable pub handle_new_connection :
      ℕ
      → List ℕ
      → (List ℕ → Text)
      → List ℕ
      → Conn
      → Text
      → (Text → Option SessionState)
      → Server D
      → Server D
  handle_new_connection now random hex drawn conn proto redis s =
      let session_id = random_session random hex proto in
      handle_new_connection_with_user now (generate_client_id p now drawn) conn
        (default_user_id p.decimal now) (default_username p.decimal now) session_id
        (redis session_id) s

  -- The range over the rooms of a client that goes.
  unfoldable pub leave_rooms : ℕ → Client → List Text → Server D → Server D
  leave_rooms now c [] s = s
  leave_rooms now c (id ∷ ids) s =
      let told =
        broadcast_to_room p id (presence_message now user_left id c (codes "offline")) c.id s in
      leave_rooms now c ids (take_out p id c.id (lookup id told.rooms) told)

  -- The session is written without its name, and the rooms of the object stay as they were.
  unfoldable pub handle_client_disconnect : ℕ → Client → Server D → Server D
  handle_client_disconnect now c s =
      let out = leave_rooms now c (map (λ e. e.0) c.rooms) s in
      record out {
        typing_clients = drop_typing c.id out.typing_clients;
        clients = erase c.id out.clients;
        rate_limiters = erase c.id out.rate_limiters;
        sessions = out.sessions ++ (session_key [], session_of [] now c) ∷ [];
      }

  abbrev pub run_for : ℕ → Option Client → Server D → Server D
  run_for now none s = s
  run_for now (some c) s = handle_client_disconnect now c s

  -- The next of the goroutines that failed writes have started.
  unfoldable pub run_leaving : ℕ → Server D → Server D
  run_leaving now s = elim s.leaving as (λ l. Server D) [
    | [] ↦ s
    | id ∷ ids ↦ run_for now (lookup id s.objects) (record s { leaving = ids })
  ]

  unfoldable pub default_rooms : List (Text × Text)
  default_rooms =
      (codes "public:lobby", codes "General Lobby")
      ∷ (codes "public:random", codes "Random Chat")
      ∷ (codes "public:help", codes "Help & Support")
      ∷ []

  -- `initializeDefaultRooms`; that the store makes a room is not looked at.
  unfoldable pub make_rooms : ℕ → List (Text × Text) → Server D → Server D
  make_rooms now [] s = s
  make_rooms now ((id, name) ∷ rest) s =
      let db =
        (p.db.create_room
          (record {
            id = id;
            room_type = public_room;
            name = name;
            metadata = codes "{}";
            created = now;
          })
          s.db).1 in
      let plain = new_room now id public_room in
      let room = record plain { name = name } in
      make_rooms now rest (record s { db = db; rooms = insert id room s.rooms })

  unfoldable pub initialize_default_rooms : ℕ → Server D → Server D
  initialize_default_rooms now s = make_rooms now default_rooms s
