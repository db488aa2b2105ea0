-- ===== src/Chat/Reachable.antt =====
-- The steps of the chat server, and what holds of every state that it reaches.
use sio.Base.{
  ℕ, ℤ, ◌≡◌, refl, ap, sym, ◌∙◌, Bool, true, false, if◌then◌else◌, List, [], ◌∷◌, Option, none,
  some,
}
use sio.Base.Text.{Text, text_eq, text_key}
use sio.Base.Dict.{lookup, insert}
use sio.Websocket.Types.{Conn}
use sio.Chat.Types.{Incoming, public_room}
use sio.Chat.Platform.{Platform}
use sio.Chat.State.{Client, Server, SessionState, in_room, put_client}
use sio.Chat.Rooms.{new_room}
use sio.Chat.Limits.{generate_client_id}
use sio.Chat.Handlers.{Moment}
use sio.Chat.Service.{Disk, on_message}
use sio.Chat.Sessions.{
  new_client, handle_new_connection_with_user, handle_new_connection, default_user_id,
  default_username, random_session, handle_client_disconnect, run_leaving, make_rooms,
  initialize_default_rooms,
}
use sio.Chat.Typing.{tell_stopped, tell_all, tell_rooms, stopped, online, cleanup_typing_indicators}
use sio.Chat.Direct.{
  create_group_room, create_dm_room, handle_file_share_from_http, handle_media_share_from_http,
}
use sio.Chat.Http.{Request, create_room_handler, rooms_route}
use sio.Chat.Upload.{Form, Encoders, file_upload_handler}
use sio.Chat.Requested.{
  file_share_from_http-Holds, media_share_from_http-Holds, file_upload_handler-IsAnswered,
  create_room_handler-IsAnswered, rooms_route-IsAnswered,
}
use sio.Chat.Distinct.{insert-AllDistinct}
use sio.Chat.Sound.{knows, known, occupies, put-IsSound, occupies-insert}
use sio.Chat.Quiet.{Holds, stands, put_client-Holds, broadcast-Holds}
use sio.Chat.Served.{on_message-Holds}
use sio.Chat.Going.{disconnect-Holds, run_leaving-Holds}

-- NewServer, before the default rooms.
unfoldable pub new_server : {D : Type 0} → D → Server D
new_server db = record {
  objects = [];
  clients = [];
  rooms = [];
  rate_limiters = [];
  typing_clients = [];
  pending_file_meta = [];
  pending_media_meta = [];
  db = db;
  leaving = [];
  sessions = [];
}

module _ {D : Type 0} (p : Platform D) where
  arrival-Holds :
      (now : ℕ) (id : Text) (conn : Conn) (user name session : Text)
      (restored : Option SessionState) (s : Server D)
      → Holds s
      → lookup id s.objects ≡ none
      → Holds (handle_new_connection_with_user p now id conn user name session restored s)
  unfolding handle_new_connection_with_user new_client
  arrival-Holds now id conn user name session none s w fresh =
      put-IsSound (new_client id user name now conn none) s.objects s.rooms w
        (λ room h. absurd (nothing (sym (ap (known room) fresh) ∙ h)))
    where
      nothing : false ≡ true → ⊥
      nothing q = cc
  arrival-Holds now id conn user name session (some old) s w fresh =
      put-IsSound (new_client id user name now conn (some old)) s.objects s.rooms w
        (λ room h. absurd (nothing (sym (ap (known room) fresh) ∙ h)))
    where
      nothing : false ≡ true → ⊥
      nothing q = cc

  make_rooms-Holds :
      (now : ℕ) (rs : List (Text × Text)) (s : Server D) → Holds s → Holds (make_rooms p now rs s)
  unfolding make_rooms lookup text_eq
  make_rooms-Holds now [] s w = w
  make_rooms-Holds now ((id, name) ∷ rest) s w = make_rooms-Holds now rest _ (record {
    keyed = w.keyed;
    backed = λ room i h. by_name room i (text_eq id room) (
        sym
          (occupies-insert id room i (record (new_room now id public_room) { name = name }) s.rooms)
        ∙ h);
    distinct =
        insert-AllDistinct id (record (new_room now id public_room) { name = name }) s.rooms tt
          w.distinct;
  })
    where
      by_name :
          (room i : Text) (b : Bool)
          → (if b then false else occupies s.rooms room i) ≡ true
          → knows s.objects room i ≡ true
      by_name room i true h = absurd cc
      by_name room i false h = w.backed room i h

  tell_stopped-Holds :
      (now : ℕ) (room id : Text) (s : Server D)
      → Holds s
      → Holds (tell_stopped p now room (online p id s) s)
  unfolding in_room
  tell_stopped-Holds now room id s w = by_online (lookup id s.clients)
    where
      by_object :
          (o : Option Client) → lookup id s.objects ≡ o → Holds (tell_stopped p now room o s)
      by_object none e = w
      by_object (some c) e = broadcast-Holds p room _ c.id _ (
          put_client-Holds c (record c { is_typing = insert room false c.is_typing }) s w
            (stands s id c w e) (λ r h. h))

      by_online :
          (o : Option (Unit {0}))
          → Holds
              (tell_stopped p now room (elim o [ some u ↦ lookup id s.objects | none ↦ none ]) s)
      by_online none = w
      by_online (some u) = by_object (lookup id s.objects) refl

  tell_all-Holds :
      (now : ℕ) (room : Text) (ids : List Text) (s : Server D)
      → Holds s
      → Holds (tell_all p now room ids s)
  unfolding tell_all
  tell_all-Holds now room [] s w = w
  tell_all-Holds now room (id ∷ ids) s w =
      tell_all-Holds now room ids _ (tell_stopped-Holds now room id s w)

  tell_rooms-Holds :
      (now : ℕ) (rs : List (Text × List (Text × ℕ))) (s : Server D)
      → Holds s
      → Holds (tell_rooms p now rs s)
  unfolding tell_rooms
  tell_rooms-Holds now [] s w = w
  tell_rooms-Holds now ((room, m) ∷ rs) s w =
      tell_rooms-Holds now rs _ (tell_all-Holds now room (stopped now m) s w)

  -- What happens to the server: a message of a client whose connection's handler still stands; a
  -- connection, by way of HTTP or with a name of its own, under an id that no object has; a change
  -- of a client's connection from outside (bytes that arrive or are read, a close); the end of a
  -- connection; the goroutine behind a failed write; the typing ticker; the HTTP handlers that
  -- change rooms and members in the store, and that for uploads; and the calls of the Go API that
  -- make rooms and share files.
  pub data Step : Server D → Server D → Type 0 where
    says :
        (t : Moment) (disk : Disk) (c : Client) (kind : ℕ) (bytes : List ℕ) (s : Server D)
        → lookup c.id s.objects ≡ some c
        → Step s (on_message p t disk c kind bytes s)
    arrives :
        (now : ℕ) (id : Text) (conn : Conn) (user name session : Text)
        (restored : Option SessionState) (s : Server D)
        → lookup id s.objects ≡ none
        → Step s (handle_new_connection_with_user p now id conn user name session restored s)
    arrives_unnamed :
        (now : ℕ) (random : List ℕ) (hex : List ℕ → Text) (drawn : List ℕ) (conn : Conn)
        (proto : Text) (redis : Text → Option SessionState) (s : Server D)
        → lookup (generate_client_id p now drawn) s.objects ≡ none
        → Step s (handle_new_connection p now random hex drawn conn proto redis s)
    moves :
        (c : Client) (conn : Conn) (s : Server D)
        → lookup c.id s.objects ≡ some c
        → Step s (put_client (record c { conn = conn }) s)
    goes :
        (now : ℕ) (c : Client) (s : Server D)
        → lookup c.id s.objects ≡ some c
        → Step s (handle_client_disconnect p now c s)
    drops : (now : ℕ) (s : Server D) → Step s (run_leaving p now s)
    ticks : (now : ℕ) (s : Server D) → Step s (cleanup_typing_indicators p now s)
    shares_file :
        (t : Moment) (user : Text) (msg : Incoming) (s : Server D)
        → Step s (handle_file_share_from_http p t user msg s)
    shares_media :
        (t : Moment) (user : Text) (msg : Incoming) (s : Server D)
        → Step s (handle_media_share_from_http p t user msg s)
    uploads :
        (e : Encoders) (form : Form) (s : Server D) → Step s (file_upload_handler p e form s).1
    asks_room :
        (now : ℕ) (random : List ℕ) (r : Request) (s : Server D)
        → Step s (create_room_handler p now random r s).1
    asks_below_rooms :
        (atoi : Text → Option ℤ) (now : ℕ) (r : Request) (s : Server D)
        → Step s (rooms_route p atoi now r s).1
    makes_group :
        (now : ℕ) (random : List ℕ) (name creator : Text) (s : Server D)
        → Step s (record s { db = (create_group_room p now random name creator s.db).1 })
    makes_dm :
        (now : ℕ) (u v : Text) (s : Server D)
        → Step s (record s { db = (create_dm_room p now u v s.db).1 })

  pub data Reach : Server D → Type 0 where
    opened : (now : ℕ) (db : D) → Reach (initialize_default_rooms p now (new_server db))
    next : {s s' : Server D} → Reach s → Step s s' → Reach s'

  pub Step-Holds : {s s' : Server D} → Step s s' → Holds s → Holds s'
  unfolding cleanup_typing_indicators handle_new_connection in_room
  Step-Holds (says t disk c kind bytes s e) w = on_message-Holds p t disk c kind bytes s w e
  Step-Holds (arrives now id conn user name session restored s e) w =
      arrival-Holds now id conn user name session restored s w e
  Step-Holds (arrives_unnamed now random hex drawn conn proto redis s e) w =
      arrival-Holds now (generate_client_id p now drawn) conn (default_user_id p.decimal now)
        (default_username p.decimal now) (random_session random hex proto)
        (redis (random_session random hex proto)) s w e
  Step-Holds (moves c conn s e) w = put_client-Holds c (record c { conn = conn }) s w e (λ r h. h)
  Step-Holds (goes now c s e) w = disconnect-Holds p now c s w
  Step-Holds (drops now s) w = run_leaving-Holds p now s w
  Step-Holds (ticks now s) w = tell_rooms-Holds now s.typing_clients s w
  Step-Holds (shares_file t user msg s) w = file_share_from_http-Holds p t user msg s w
  Step-Holds (shares_media t user msg s) w = media_share_from_http-Holds p t user msg s w
  Step-Holds (uploads e form s) w = (file_upload_handler-IsAnswered p e form s w).holds
  Step-Holds (asks_room now random r s) w =
      (create_room_handler-IsAnswered p now random r s w).holds
  Step-Holds (asks_below_rooms atoi now r s) w = (rooms_route-IsAnswered p atoi now r s w).holds
  Step-Holds (makes_group now random name creator s) w = w
  Step-Holds (makes_dm now u v s) w = w

  -- In every state that a new server with its default rooms comes to, by messages and uploads of
  -- clients, connections that arrive, change and end, failed writes, the typing ticker, the HTTP
  -- handlers that change something, and the calls of the Go API that make rooms: whoever the server
  -- has in a room is a client object that says so itself, under its own id, and no room has a
  -- client twice. A connection arrives under an id that no object has (the ids that are drawn do
  -- not collide), and the handlers run one after the other.
  pub Reach-Holds : {s : Server D} → Reach s → Holds s
  unfolding initialize_default_rooms new_server lookup
  Reach-Holds (opened now db) = make_rooms-Holds now _ (new_server db) (record {
    keyed = λ id c e. absurd cc;
    backed = λ room i h. absurd cc;
    distinct = λ room r e. absurd cc;
  })
  Reach-Holds (next r step) = Step-Holds step (Reach-Holds r)
