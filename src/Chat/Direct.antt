-- ===== src/Chat/Direct.antt =====
-- chat/server.go: the methods that the HTTP side calls.
use sio.Base.Names.{Names}
use sio.Base.{ℕ, Bool, true, false, if◌then◌else◌, List, [], ◌∷◌, ◌++◌, Option, none, some, ltb}
use sio.Base.Text.{Text, codes, text_eq, text_key}
use sio.Base.Dict.{lookup}
use sio.Database.{DbRoom, DbRoomMember, DbMessage}
use sio.Chat.Types.{Incoming, group_room, dm_room}
use sio.Chat.Platform.{Platform}
use sio.Chat.State.{Client, Server}
use sio.Chat.Limits.{random_string}
use sio.Chat.Handlers.{Moment}
use sio.Chat.Shares.{handle_file_share, handle_media_share}

-- Strings in the order of Go: by bytes, a prefix first.
unfoldable pub text_leb : Text → Text → Bool
text_leb [] t = true
text_leb (a ∷ s) [] = false
text_leb (a ∷ s) (b ∷ t) =
    let rest = text_leb s t in if ltb a b then true else if ltb b a then false else rest

-- sort.Strings on two
abbrev pub sort_pair : Text → Text → Text × Text
sort_pair u v = if text_leb u v then (u, v) else (v, u)

unfoldable pub dm_room_id : Text → Text → Text
dm_room_id u v = let (a, b) = sort_pair u v in codes "dm:" ++ a ++ codes "_" ++ b

abbrev pub db_room : ℕ → Text → Text → Text → DbRoom
db_room now id room_type name = record {
  id = id;
  room_type = room_type;
  name = name;
  metadata = codes "{}";
  created = now;
}

abbrev pub db_member : ℕ → Text → Text → Text → DbRoomMember
db_member now room user role = record {
  room_id = room;
  user_id = user;
  role = role;
  joined_at = now;
}

-- The first client object with a user's id among those of `clients`.
unfoldable pub client_of_user : Text → Names → List (Text × Client) → Option Client
client_of_user user [] objects = none
client_of_user user ((id, u) ∷ ids) objects =
    let rest = client_of_user user ids objects in
    elim (lookup id objects) [
      | some c ↦ if text_eq c.user_id user then some c else rest
      | none ↦ rest
    ]

-- Who is online in a room: user, name, id and when last seen.
unfoldable pub members_of : Names → List (Text × Client) → List (Text × (Text × (Text × ℕ)))
members_of [] objects = []
members_of ((id, u) ∷ ids) objects =
    let rest = members_of ids objects in
    elim (lookup id objects) [
      | some c ↦ (c.user_id, (c.username, (c.id, c.last_seen))) ∷ rest
      | none ↦ rest
    ]

module _ {D : Type 0} (p : Platform D) where
  abbrev pub named : Text → Bool × D → Option Text × D
  named id (true, db) = (some id, db)
  named id (false, db) = (none, db)

  abbrev pub then_add : DbRoomMember → Option Text × D → Option Text × D
  then_add m (some id, db) = named id (p.db.add_room_member m db)
  then_add m (none, db) = (none, db)

  -- None where the store fails.
  unfoldable pub create_group_room : ℕ → List ℕ → Text → Text → D → Option Text × D
  create_group_room now random name creator db =
      let id = codes "group:" ++ random_string random in
      then_add (db_member now id creator (codes "owner"))
        (named id (p.db.create_room (db_room now id group_room name) db))

  abbrev pub or_make_dm : ℕ → Text → Text → Text → Option DbRoom → D → Option Text × D
  or_make_dm now id a b (some r) db = (some id, db)
  or_make_dm now id a b none db = then_add (db_member now id b (codes "member")) (
      then_add (db_member now id a (codes "member")) (
        named id
          (p.db.create_room (db_room now id dm_room (codes "DM: " ++ a ++ codes ", " ++ b)) db)))

  unfoldable pub create_dm_room : ℕ → Text → Text → D → Option Text × D
  create_dm_room now u v db =
      let (a, b) = sort_pair u v in
      let id = dm_room_id u v in or_make_dm now id a b (p.db.get_room id db) db

  abbrev pub for_client : (Client → Server D → Server D) → Option Client → Server D → Server D
  for_client f none s = s
  for_client f (some c) s = f c s

  unfoldable pub handle_file_share_from_http : Moment → Text → Incoming → Server D → Server D
  handle_file_share_from_http t user msg s =
      for_client (λ c. handle_file_share p t c msg) (client_of_user user s.clients s.objects) s

  unfoldable pub handle_media_share_from_http : Moment → Text → Incoming → Server D → Server D
  handle_media_share_from_http t user msg s =
      for_client (λ c. handle_media_share p t c msg) (client_of_user user s.clients s.objects) s

  unfoldable pub get_room_members : Text → Server D → List (Text × (Text × (Text × ℕ)))
  get_room_members id s = elim (lookup id s.rooms) [
    | some room ↦ members_of room.clients s.objects
    | none ↦ []
  ]

  unfoldable pub get_room_messages : Text → ℕ → ℕ → Server D → Option (List DbMessage)
  get_room_messages room limit offset s = p.db.get_messages room limit offset s.db
