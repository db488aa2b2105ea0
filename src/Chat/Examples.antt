-- ===== src/Chat/Examples.antt =====
-- The theorems on the chat server at a server with the in-memory store and two clients.
use sio.Base.{ℕ, pos, ◌*◌, ◌^◌, ◌≡◌, refl, true, false, List, [], ◌∷◌, ◌++◌, none, some, arith}
use mathlib.Core.Path.{subst}
use sio.Base.Text.{Text, codes, text_eq, text_key, has_prefix, is_prefix, split, cons_head}
use sio.Base.Dict.{lookup, insert}
use sio.Database.{DbRoom, InMemoryDb, new_in_memory_db, create_room, get_room}
use sio.Chat.Types.{MessageType, Incoming, type_name, message, join_room, dm_room, group_room}
use sio.Chat.State.{Server, in_room, broadcast_to_room}
use sio.Chat.Rooms.{
  new_room, join, mentions, handle_join_room, get_or_create_room, check_room_permission, dm_prefix,
  type_of_id,
}
use sio.Chat.Service.{route}
use sio.Chat.Sessions.{
  new_client, handle_new_connection_with_user, handle_client_disconnect, initialize_default_rooms,
  make_rooms, default_rooms,
}
use sio.Chat.Typing.{cleanup_typing_indicators}
use sio.Chat.Direct.{dm_room_id}
use sio.Chat.Sound.{knows, occupies}
use sio.Chat.Quiet.{Holds}
use sio.Chat.Reachable.{new_server, Reach-Holds}
use sio.Chat.Going.{handle_client_disconnect-gone}
use sio.Chat.Delivery.{written, broadcast_to_room-objects}
use sio.Chat.Outside.{IsOnlyTold, route-outside, handle_join_room-denied}
use sio.Chat.Limiting.{calls_of, granted, granted-window}
use sio.Chat.Dms.{has_byte, check_room_permission-dm_room_id, check_room_permission-underscore}
use sio.Chat.Sweeping.{entries, recent, AllTyping, cleanup_typing_indicators-entries}
use sio.Chat.Entering.{join-in}
use sio.Chat.Http.{
  Request, no_content, trim_prefix, trim_suffix, has_suffix, invite_user_handler,
  remove_user_handler,
}
use sio.Chat.Inviting.{stored}
use sio.Chat.Removing.{remove_user_handler-stays}
use sio.Chat.State.{SessionState}
use sio.Chat.Restored.{handle_new_connection_with_user-absent}
use sio.Chat.Upload.{
  Part, Form, Encoders, too_large, upload_files, share_part, upload_files-too_large,
}
use sio.Chat.Scene.{
  conn, limit, plat, a, b, lobby, client_a, s2, s2-Reach, moment, s3_grouped, s3_grouped-Reach,
  lobby_room, s5, full_lobby, ann_in, s5-Holds, hello, to_help, dm, to_dm, with_dm, three_calls,
  typing,
}

Reach-Holds_example : Holds s3_grouped
Reach-Holds_example = Reach-Holds plat s3_grouped-Reach

join-in_example :
    (occupies (join plat 3 lobby lobby_room client_a s2).rooms lobby b ≡ false)
    × (knows (join plat 3 lobby lobby_room client_a s2).objects lobby a ≡ true)
unfolding handle_new_connection_with_user initialize_default_rooms make_rooms default_rooms
    new_server lookup insert text_eq new_client
join-in_example =
    join-in plat 3 lobby lobby_room client_a s2 lobby b (Reach-Holds plat s2-Reach) refl refl

broadcast_to_room-objects_example :
    lookup b (broadcast_to_room plat lobby hello a s5).objects
    ≡ written plat (codes "message") (lookup b s5.objects)
unfolding handle_new_connection_with_user initialize_default_rooms make_rooms default_rooms
    new_server lookup insert text_eq new_client type_name
broadcast_to_room-objects_example =
    broadcast_to_room-objects plat lobby full_lobby hello (codes "message") a b s5 s5-Holds refl
      refl

handle_client_disconnect-gone_example :
    let s = handle_client_disconnect plat 5 ann_in s5 in
    (occupies s.rooms lobby a ≡ false)
    × (lookup a s.clients ≡ none)
    × (lookup a s.rate_limiters ≡ none)
    × ((ts : List (Text × ℕ)) → lookup lobby s.typing_clients ≡ some ts → lookup a ts ≡ none)
    × ((i : Text) → text_eq a i ≡ false → occupies s.rooms lobby i ≡ occupies s5.rooms lobby i)
unfolding handle_new_connection_with_user initialize_default_rooms make_rooms default_rooms
    new_server lookup insert text_eq new_client
handle_client_disconnect-gone_example =
    handle_client_disconnect-gone plat 5 ann_in s5 lobby s5-Holds refl

route-outside_example : IsOnlyTold a s5 (route plat moment ann_in to_help message s5)
unfolding in_room lookup text_eq new_client
route-outside_example =
    route-outside plat moment ann_in to_help message s5 s5-Holds refl
      (λ e. different (subst is_chat e tt))
  where
    is_chat : MessageType → Type 0
    is_chat message = Unit {0}
    is_chat kind = ⊥

    different : ⊥ → ⊥
    different x = x

handle_join_room-denied_example :
    let after = handle_join_room plat 8 client_a to_dm s2 in
    IsOnlyTold a with_dm after
    × (lookup a after.objects ≡ written plat (codes "error") (lookup a s2.objects))
unfolding handle_new_connection_with_user initialize_default_rooms make_rooms default_rooms
    new_server lookup insert text_eq new_client get_or_create_room type_of_id has_prefix is_prefix
    check_room_permission mentions split cons_head get_room create_room new_in_memory_db type_name
handle_join_room-denied_example =
    handle_join_room-denied plat 8 client_a to_dm (new_room 8 dm dm_room) s2 with_dm
      (Reach-Holds plat s2-Reach) refl refl refl

check_room_permission-dm_room_id_example :
    check_room_permission plat (codes "ann") (dm_room_id (codes "bob") (codes "ann")) s2 ≡ some true
unfolding text_eq has_byte
check_room_permission-dm_room_id_example =
    check_room_permission-dm_room_id plat (codes "bob") (codes "ann") (codes "ann") s2 refl refl

check_room_permission-underscore_example :
    check_room_permission plat (codes "user_7") (dm_prefix ++ codes "ann_user_7") s2 ≡ some false
unfolding has_byte
check_room_permission-underscore_example =
    check_room_permission-underscore plat (codes "ann_user_7") (codes "user_7") s2 refl

granted-window_example :
    granted limit a three_calls (record s2 { rate_limiters = (a, limit) ∷ [] }) ≡ 2
unfolding lookup text_eq calls_of
granted-window_example =
    granted-window limit a three_calls limit (record s2 { rate_limiters = (a, limit) ∷ [] }) refl
      (λ e. omega arith, (λ e. omega arith, (λ e. omega arith, (λ e. omega arith, tt))))

cleanup_typing_indicators-entries_example :
    (entries
        (cleanup_typing_indicators plat
          (11 * 10 ^ 9)
          (record s5 { typing_clients = typing })).typing_clients
      ≡ (lobby, (b, 10 ^ 10)) ∷ [])
    × AllTyping
        (cleanup_typing_indicators plat
          (11 * 10 ^ 9)
          (record s5 { typing_clients = typing })).typing_clients
unfolding entries recent
cleanup_typing_indicators-entries_example =
    cleanup_typing_indicators-entries plat (11 * 10 ^ 9) (record s5 { typing_clients = typing })

abbrev asked : Text → Request
asked action = record {
  method = codes "POST";
  path = codes "/api/rooms/group:x" ++ action;
  query = λ k. [];
  header = λ k. [];
  wanted = none;
  invited = some (codes "ann");
}

abbrev group_x : Text
group_x = codes "group:x"

abbrev x_stored : DbRoom
x_stored = record {
  id = group_x;
  room_type = group_room;
  name = codes "x";
  metadata = codes "{}";
  created = 4;
}

-- The store has the room.
abbrev with_x : Server InMemoryDb
with_x = record s2 { db = create_room x_stored s2.db }

abbrev to_x : Incoming
to_x = record { kind = join_room; room_id = group_x; message_id = []; payload = [] }

-- Ann, invited, has joined.
abbrev joined_x : Server InMemoryDb
joined_x =
    handle_join_room (stored plat) 6 client_a to_x
      (invite_user_handler (stored plat) 5 (asked (codes "/invite")) with_x).1

remove_user_handler-stays_example :
    let (answer, s) = remove_user_handler (stored plat) (asked (codes "/remove")) joined_x in
    (answer ≡ no_content)
    × (check_room_permission (stored plat) (codes "ann") group_x s ≡ some false)
    × (check_room_permission (stored plat) (codes "bob") group_x s
        ≡ check_room_permission (stored plat) (codes "bob") group_x joined_x)
    × (s.rooms ≡ joined_x.rooms)
    × (s.objects ≡ joined_x.objects)
unfolding text_eq has_prefix is_prefix trim_prefix trim_suffix has_suffix
remove_user_handler-stays_example =
    remove_user_handler-stays plat (asked (codes "/remove")) (codes "ann") (codes "bob") joined_x
      (record { posted = refl; named = refl; someone = refl; not_public = refl; not_dm = refl })
      refl

-- A session of Ann that has been in the lobby.
abbrev old : SessionState
old = record {
  session_id = codes "z";
  user_id = codes "ann";
  username = codes "Ann";
  rooms = lobby ∷ [];
  last_seen = 4;
}

handle_new_connection_with_user-absent_example :
    let s =
      handle_new_connection_with_user plat 6 (codes "c") conn [] [] (codes "z") (some old) s2 in
    (knows s.objects lobby (codes "c") ≡ true) × (occupies s.rooms lobby (codes "c") ≡ false)
unfolding handle_new_connection_with_user initialize_default_rooms make_rooms default_rooms
    new_server lookup insert text_eq new_client mentions
handle_new_connection_with_user-absent_example =
    handle_new_connection_with_user-absent plat 6 (codes "c") conn [] [] (codes "z") old s2 lobby
      (Reach-Holds plat s2-Reach) refl refl

abbrev part : ℕ → Part
part n = record {
  opens = true;
  reads = true;
  file_name = codes "f";
  size = pos n;
  content_type = codes "text/plain";
  bytes = 1 ∷ 2 ∷ [];
  file_id = codes "id";
}

abbrev form : Form
form = record {
  method = codes "POST";
  parses = true;
  user_id = codes "ann";
  username = codes "Ann";
  room_id = lobby;
  media_type = [];
  files = (moment, part 2) ∷ (moment, part (11 * 1024 * 1024)) ∷ [];
}

abbrev encoders : Encoders
encoders = record { file_json = λ f. []; media_json = λ m. []; base64 = λ d. d }

upload_files-too_large_example :
    upload_files plat encoders form form.files [] s5
    ≡ (too_large (part (11 * 1024 * 1024)), share_part plat encoders moment form (part 2) s5)
unfolding upload_files
upload_files-too_large_example =
    upload_files-too_large plat encoders form ((moment, part 2) ∷ []) [] moment
      (part (11 * 1024 * 1024)) [] _ s5 (share_part plat encoders moment form (part 2) s5) refl refl
      refl
