-- ===== src/Chat/Scene.antt =====
-- A server with the in-memory store and two clients, for the examples.
use sio.Base.{
  ℕ, ◌^◌, ◌==◌, refl, pos, true, false, if◌then◌else◌, List, [], ◌∷◌, Option, none, some,
}
use sio.Base.Text.{Text, codes, text_eq, text_key}
use sio.Base.Dict.{lookup, insert}
use sio.Database.{InMemoryDb, new_in_memory_db}
use sio.Websocket.Types.{Conn, new_conn}
use sio.Chat.Types.{
  MessageType, Incoming, ChatMessage, RateLimit, type_name, raw, join_room, leave_room, message,
  public_room,
}
use sio.Chat.Platform.{Platform, Json, in_memory}
use sio.Chat.State.{Client, Room, Server}
use sio.Chat.Rooms.{enter, mark_joined, get_or_create_room}
use sio.Chat.Http.{Request, create_room_handler}
use sio.Chat.Handlers.{Moment}
use sio.Chat.Service.{Disk, on_message}
use sio.Chat.Sessions.{
  new_client, handle_new_connection_with_user, initialize_default_rooms, make_rooms, default_rooms,
}
use sio.Chat.Quiet.{Holds}
use sio.Chat.Membership.{entered-Holds}
use sio.Chat.Reachable.{new_server, Reach, opened, next, says, arrives, asks_room, Reach-Holds}
use sio.Chat.Limiting.{Calls}

abbrev pub kind_of : ℕ → MessageType
kind_of n = if n == 1 then join_room else if n == 2 then leave_room else message

-- A message of one byte for the type, and the name of the room.
abbrev pub decoded : List ℕ → Option Incoming
decoded [] = none
decoded (k ∷ room) =
    some (record { kind = kind_of k; room_id = room; message_id = []; payload = codes "hello" })

abbrev pub json : Json
json = record {
  decode = decoded;
  encode = λ m. some (type_name m.kind);
  content = λ t. t;
  parse_message = λ t. some (record { content = t; user_id = []; username = []; message_id = [] });
  parse_reply = λ t. none;
  parse_typing = λ t. none;
  parse_receipt = λ t. none;
  parse_file = λ t. none;
  parse_media = λ t. none;
  parse_invite = λ t. none;
  parse_answer = λ t. none;
  parse_end = λ t. none;
  parse_signal = λ t. none;
  parse_screen = λ t. none;
  parse_recording = λ t. none;
}

abbrev pub limit : RateLimit
limit = record { requests = 2; window_size = 100; last_reset = 0; current_used = 0 }

abbrev pub plat : Platform InMemoryDb
plat = record {
  db = in_memory;
  json = json;
  net = record { random = λ n. record { k0 = 1; k1 = 2; k2 = 3; k3 = 4 }; deflate = λ d. d };
  decimal = λ n. codes "7";
  security = record {
    max_message_length = 4096;
    allowed_origins = [];
    rate_limit_per_socket = limit;
  };
  reason = λ now text. [];
}

abbrev pub conn : Conn
unfolding new_conn
conn =
    new_conn
      (record { max_message_size = pos 1000; max_frame_size = pos 100; enable_ping_pong = true })
      false true []

abbrev pub a : Text
a = codes "a"

abbrev pub b : Text
b = codes "b"

abbrev pub lobby : Text
lobby = codes "public:lobby"

abbrev pub s0 : Server InMemoryDb
s0 = initialize_default_rooms plat 0 (new_server new_in_memory_db)

abbrev pub client_a : Client
client_a = new_client a (codes "ann") (codes "Ann") 1 conn none

abbrev pub client_b : Client
client_b = new_client b (codes "bob") (codes "Bob") 2 conn none

abbrev pub s1 : Server InMemoryDb
s1 = handle_new_connection_with_user plat 1 a conn (codes "ann") (codes "Ann") (codes "x") none s0

abbrev pub s2 : Server InMemoryDb
s2 = handle_new_connection_with_user plat 2 b conn (codes "bob") (codes "Bob") (codes "y") none s1

pub s2-Reach : Reach plat s2
unfolding handle_new_connection_with_user initialize_default_rooms make_rooms default_rooms
    new_server lookup insert text_eq new_client
s2-Reach =
    next (next (opened 0 new_in_memory_db) (arrives 1 a conn _ _ _ none s0 refl))
      (arrives 2 b conn _ _ _ none s1 refl)

abbrev pub moment : Moment
moment = record { now = 3; fresh_id = codes "m" }

abbrev pub disk : Disk
disk = record { saved = true; ext = λ t. [] }

-- Ann joins the lobby, by a text message.
abbrev pub s3 : Server InMemoryDb
s3 = on_message plat moment disk client_a 1 (1 ∷ lobby) s2

pub s3-Reach : Reach plat s3
unfolding handle_new_connection_with_user initialize_default_rooms make_rooms default_rooms
    new_server lookup insert text_eq new_client
s3-Reach = next s2-Reach (says moment disk client_a 1 (1 ∷ lobby) s2 refl)

-- Ann has a group room made over HTTP.
abbrev pub wants_group : Request
wants_group = record {
  method = codes "POST";
  path = codes "/api/rooms";
  query = λ k. [];
  header = λ k. [];
  wanted = some (record {
    name = codes "x";
    room_type = codes "group";
    user_id = codes "ann";
    user_id2 = [];
  });
  invited = none;
}

abbrev pub s3_grouped : Server InMemoryDb
s3_grouped = (create_room_handler plat 4 (1 ∷ 2 ∷ []) wants_group s3).1

pub s3_grouped-Reach : Reach plat s3_grouped
s3_grouped-Reach = next s3-Reach (asks_room 4 (1 ∷ 2 ∷ []) wants_group s3)

abbrev pub lobby_room : Room
lobby_room = record {
  id = lobby;
  room_type = public_room;
  name = codes "General Lobby";
  clients = [];
  created = 0;
}

-- Both in the lobby.
abbrev pub s4 : Server InMemoryDb
s4 = mark_joined plat lobby client_a (enter plat lobby a (some lobby_room) s2)

abbrev pub s5 : Server InMemoryDb
s5 =
    mark_joined plat lobby client_b
      (enter plat lobby b (some (record lobby_room { clients = (a, tt) ∷ [] })) s4)

abbrev pub full_lobby : Room
full_lobby = record lobby_room { clients = (a, tt) ∷ (b, tt) ∷ [] }

abbrev pub ann_in : Client
ann_in = record client_a { rooms = (lobby, true) ∷ [] }

pub s4-Holds : Holds s4
unfolding handle_new_connection_with_user initialize_default_rooms make_rooms default_rooms
    new_server lookup insert text_eq new_client
s4-Holds = entered-Holds plat lobby lobby_room client_a s2 (Reach-Holds plat s2-Reach) refl refl

pub s5-Holds : Holds s5
unfolding handle_new_connection_with_user initialize_default_rooms make_rooms default_rooms
    new_server lookup insert text_eq new_client
s5-Holds =
    entered-Holds plat lobby (record lobby_room { clients = (a, tt) ∷ [] }) client_b s4 s4-Holds
      refl refl

abbrev pub hello : ChatMessage
hello = record {
  kind = message;
  room_id = lobby;
  message_id = [];
  payload = raw (codes "hi");
  timestamp = 4;
}

abbrev pub to_help : Incoming
to_help = record {
  kind = message;
  room_id = codes "public:help";
  message_id = [];
  payload = codes "hi";
}

abbrev pub leave_lobby : Incoming
leave_lobby = record { kind = leave_room; room_id = lobby; message_id = []; payload = [] }

abbrev pub x_room : Text
x_room = codes "public:x"

-- Two others' room.
abbrev pub dm : Text
dm = codes "dm:u_v"

abbrev pub to_dm : Incoming
to_dm = record { kind = join_room; room_id = dm; message_id = []; payload = [] }

abbrev pub with_dm : Server InMemoryDb
with_dm = (get_or_create_room plat 8 dm s2).1

-- Ann has two calls left, and makes three, with one of Bob's between.
abbrev pub three_calls : Calls
three_calls = (1, a) ∷ (2, b) ∷ (3, a) ∷ (4, a) ∷ []

abbrev pub typing : List (Text × List (Text × ℕ))
typing = (lobby, (a, 0) ∷ (b, 10 ^ 10) ∷ []) ∷ []
