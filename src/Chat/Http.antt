-- ===== src/Chat/Http.antt =====
-- chat/http.go: the handlers of the HTTP side that read and change rooms.
use sio.Base.{
  ℕ, ℤ, pos, negsuc, Bool, true, false, ◌&&◌, ◌||◌, if◌then◌else◌, List, [], ◌∷◌, Option, none,
  some, leb,
}
use mathlib.Core.List.{reverse}
use sio.Base.Names.{Names}
use sio.Base.Text.{Text, codes, text_eq, text_key, has_prefix, contains, split}
use sio.Base.Dict.{lookup}
use sio.Database.{DbRoom, DbMessage}
use sio.Chat.Platform.{Platform}
use sio.Chat.State.{Client, Server}
use sio.Chat.Rooms.{without}
use sio.Chat.Direct.{create_group_room, create_dm_room, get_room_members}

-- The body of a request to make a room.
pub record NewRoom : Type 0 where
  pub name : Text
  pub room_type : Text
  pub user_id : Text
  pub user_id2 : Text

-- A request: its query and headers give the empty string for what is not there, and its body is
-- what encoding/json finds in it, for a room to be made and for the user of an invitation.
pub record Request : Type 0 where
  pub method : Text
  pub path : Text
  pub query : Text → Text
  pub header : Text → Text
  pub wanted : Option NewRoom
  pub invited : Option Text

pub data Response : Type 0 where
  refused : ℕ → Text → Response
  not_found no_content : Response
  gave_rooms : List DbRoom → Response
  gave_messages : List DbMessage → Response
  gave_members : Text → List (Text × (Text × (Text × ℕ))) → Response
  gave_users : List (Text × Text) → Response
  created : Text → Response

-- strings.TrimPrefix, strings.HasSuffix and strings.TrimSuffix
unfoldable pub trim_prefix : Text → Text → Text
trim_prefix p s = if has_prefix s p then without p s else s

unfoldable pub has_suffix : Text → Text → Bool
has_suffix s p = has_prefix (reverse s) (reverse p)

unfoldable pub trim_suffix : Text → Text → Text
trim_suffix p s = if has_suffix s p then reverse (without (reverse p) (reverse s)) else s

abbrev pub api_rooms : Text
api_rooms = codes "/api/rooms/"

-- The id in a path that ends in an action.
abbrev pub room_in_path : Text → Text → Text
room_in_path action path = trim_suffix action (trim_prefix api_rooms path)

-- A number from the query, by strconv.Atoi, where it lies in the bounds.
abbrev pub limit_from : Option ℤ → ℕ
limit_from (some (pos n)) = if leb 1 n && leb n 1000 then n else 50
limit_from (some (negsuc n)) = 50
limit_from none = 50

abbrev pub offset_from : Option ℤ → ℕ
offset_from (some (pos n)) = n
offset_from (some (negsuc n)) = 0
offset_from none = 0

-- The parts of a path behind the prefix: the room's id, if the action is the one expected.
abbrev pub parted : Text → List Text → Option Text
parted action [] = none
parted action (room ∷ []) = none
parted action (room ∷ a ∷ rest) = if text_eq a action then some room else none

unfoldable pub users_of : Names → List (Text × Client) → List (Text × Text)
users_of [] objects = []
users_of ((id, u) ∷ ids) objects =
    let rest = users_of ids objects in
    elim (lookup id objects) [ some c ↦ (c.user_id, c.username) ∷ rest | none ↦ rest ]

module _ {D : Type 0} (p : Platform D) where
  abbrev pub answer_rooms : Option (List DbRoom) → Response
  answer_rooms none = refused 500 (codes "Failed to get rooms")
  answer_rooms (some rs) = gave_rooms rs

  unfoldable pub get_rooms_handler : Request → Server D → Response
  get_rooms_handler r s =
      let asked = r.query (codes "user_id") in
      let user = if text_eq asked [] then r.header (codes "X-User-ID") else asked in
      if text_eq user []
      then refused 400 (codes "User ID required")
      else answer_rooms (p.db.get_user_rooms user s.db)

  abbrev pub answer_messages : Text → Option (List DbMessage) → Response
  answer_messages failed none = refused 500 failed
  answer_messages failed (some ms) = gave_messages ms

  abbrev pub messages_page : (Text → Option ℤ) → Request → Option Text → Server D → Response
  messages_page atoi r none s = refused 400 (codes "Invalid URL format")
  messages_page atoi r (some room) s = answer_messages (codes "Failed to get messages") (
      p.db.get_messages room (limit_from (atoi (r.query (codes "limit"))))
        (offset_from (atoi (r.query (codes "offset")))) s.db)

  -- Atoi fails on the empty string, so that the test for it is Atoi's.
  unfoldable pub get_messages_handler : (Text → Option ℤ) → Request → Server D → Response
  get_messages_handler atoi r s =
      messages_page atoi r (parted (codes "messages") (split b'/' (trim_prefix api_rooms r.path))) s

  unfoldable pub get_thread_handler : Request → Server D → Response
  get_thread_handler r s =
      let parent = r.query (codes "parent") in
      if text_eq parent []
      then refused 400 (codes "Parent message ID required")
      else answer_messages (codes "Failed to get thread messages")
          (p.db.get_thread_messages parent s.db)

  abbrev pub members_answer : Option Text → Server D → Response
  members_answer none s = refused 400 (codes "Invalid URL format")
  members_answer (some room) s = gave_members room (get_room_members p room s)

  unfoldable pub get_room_members_handler : Request → Server D → Response
  get_room_members_handler r s =
      members_answer (parted (codes "members") (split b'/' (trim_prefix api_rooms r.path))) s

  abbrev pub made : Server D → Option Text × D → Response × Server D
  made s (some id, db) = (created id, record s { db = db })
  made s (none, db) = (refused 500 (codes "Failed to create room"), record s { db = db })

  abbrev pub create_wanted : ℕ → List ℕ → Option NewRoom → Server D → Response × Server D
  create_wanted now random none s = (refused 400 (codes "Invalid request body"), s)
  create_wanted now random (some w) s =
      if text_eq w.name [] || text_eq w.room_type [] || text_eq w.user_id []
      then (refused 400 (codes "Name, type, and userId are required"), s)
      else if text_eq w.room_type (codes "group")
      then made s (create_group_room p now random w.name w.user_id s.db)
      else if text_eq w.room_type (codes "dm")
      then if text_eq w.user_id2 []
        then (refused 400 (codes "userId2 required for DM rooms"), s)
        else made s (create_dm_room p now w.user_id w.user_id2 s.db)
      else (refused 400 (codes "Invalid room type"), s)

  abbrev pub bad_method : Response
  bad_method = refused 405 (codes "Method not allowed")

  unfoldable pub create_room_handler : ℕ → List ℕ → Request → Server D → Response × Server D
  create_room_handler now random r s =
      if text_eq r.method (codes "POST")
      then create_wanted now random r.wanted s
      else (bad_method, s)

  abbrev pub done : Text → Server D → Bool × D → Response × Server D
  done failed s (true, db) = (no_content, record s { db = db })
  done failed s (false, db) = (refused 500 failed, record s { db = db })

  unfoldable pub delete_room_handler : Request → Server D → Response × Server D
  delete_room_handler r s =
      let room = trim_prefix api_rooms r.path in
      if text_eq r.method (codes "DELETE")
      then if text_eq room []
        then (refused 400 (codes "Room ID required"), s)
        else done (codes "Failed to delete room") s (p.db.delete_room room s.db)
      else (bad_method, s)

  -- The user that a body names, or the refusal that three handlers share.
  abbrev pub with_user : (Text → Response × Server D) → Option Text → Server D → Response × Server D
  with_user f none s = (refused 400 (codes "userId required"), s)
  with_user f (some user) s =
      if text_eq user [] then (refused 400 (codes "userId required"), s) else f user

  unfoldable pub invite_user_handler : ℕ → Request → Server D → Response × Server D
  invite_user_handler now r s =
      let room = room_in_path (codes "/invite") r.path in
      if text_eq r.method (codes "POST")
      then with_user
          (λ user. done (codes "Failed to invite user") s (
            p.db.add_room_member
              (record { room_id = room; user_id = user; role = codes "member"; joined_at = now })
              s.db))
          r.invited s
      else (bad_method, s)

  unfoldable pub remove_user_handler : Request → Server D → Response × Server D
  remove_user_handler r s =
      let room = room_in_path (codes "/remove") r.path in
      if text_eq r.method (codes "POST")
      then with_user
          (λ user. done (codes "Failed to remove user") s (p.db.remove_room_member room user s.db))
          r.invited s
      else (bad_method, s)

  -- It only says that it has.
  unfoldable pub ban_user_handler : Request → Server D → Response × Server D
  ban_user_handler r s =
      if text_eq r.method (codes "POST")
      then with_user (λ user. (no_content, s)) r.invited s
      else (bad_method, s)

  unfoldable pub get_users_handler : Server D → Response
  get_users_handler s = gave_users (users_of s.clients s.objects)

  -- What SetupRoutes sets for "/api/rooms/".
  unfoldable pub rooms_route : (Text → Option ℤ) → ℕ → Request → Server D → Response × Server D
  rooms_route atoi now r s =
      if has_suffix r.path (codes "/messages")
      then (get_messages_handler atoi r s, s)
      else if has_suffix r.path (codes "/members")
      then (get_room_members_handler r s, s)
      else if has_suffix r.path (codes "/invite")
      then invite_user_handler now r s
      else if has_suffix r.path (codes "/remove")
      then remove_user_handler r s
      else if has_suffix r.path (codes "/ban")
      then ban_user_handler r s
      else if text_eq r.method (codes "DELETE")
      then delete_room_handler r s
      else if contains r.path (codes "/threads")
      then (get_thread_handler r s, s)
      else (not_found, s)
