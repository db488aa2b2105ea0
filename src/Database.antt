-- ===== src/Database.antt =====
-- chat/database.go: `InMemoryDB`. A context is passed to every operation and used by none.
pub mod Membership
mod Examples
use sio.Base.{
  ℕ, ℤ, ◌+◌, ◌-◌, Bool, true, false, if◌then◌else◌, List, [], ◌∷◌, ◌++◌, map, Option, none, some,
  ltb, length, take, drop,
}
use sio.Base.Text.{Text, text_eq, text_key}
use sio.Base.Dict.{lookup, insert, erase}

-- A pointer field is none where it is nil. Times are in nanoseconds.
pub record DbMessage : Type 0 where
  pub id : Text
  pub message_room : Text
  pub sender_id : Text
  pub content : Text
  pub timestamp : ℕ
  pub parent_message : Option Text
  pub message_type : Text
  pub file_data : Option Text
  pub file_name : Option Text
  pub file_size : Option ℤ
  pub file_url : Option Text
  pub file_type : Option Text
  pub media_data : Option Text
  pub media_type : Option Text
  pub duration : Option ℤ

pub record DbRoom : Type 0 where
  pub id : Text
  pub room_type : Text
  pub name : Text
  pub metadata : Text
  pub created : ℕ

pub record DbRoomMember : Type 0 where
  pub room_id : Text
  pub user_id : Text
  pub role : Text
  pub joined_at : ℕ

pub record DbReadReceipt : Type 0 where
  pub message_id : Text
  pub user_id : Text
  pub read_at : ℕ

abbrev pub Map2 : Type 0 → Type 0
Map2 A = List (Text × List (Text × A))

pub record InMemoryDb : Type 0 where
  pub messages : List (Text × DbMessage)
  pub rooms : List (Text × DbRoom)
  pub room_members : Map2 DbRoomMember
  pub read_receipts : Map2 DbReadReceipt
  pub user_rooms : Map2 Bool

unfoldable pub new_in_memory_db : InMemoryDb
new_in_memory_db = record {
  messages = [];
  rooms = [];
  room_members = [];
  read_receipts = [];
  user_rooms = [];
}

-- A map of maps: reading, where a missing map reads as empty; writing, which makes the inner map;
-- and deleting from an inner map that exists.
abbrev pub inner : {A : Type 0} → Option (List (Text × A)) → List (Text × A)
inner none = []
inner (some m) = m

abbrev pub read2 : {A : Type 0} → Text → Map2 A → List (Text × A)
read2 i m = inner (lookup i m)

unfoldable pub write2 : {A : Type 0} → Text → Text → A → Map2 A → Map2 A
write2 i j v m = insert i (insert j v (read2 i m)) m

abbrev pub erase_inner : {A : Type 0} → Text → Text → Map2 A → Option (List (Text × A)) → Map2 A
erase_inner i j m none = m
erase_inner i j m (some row) = insert i (erase j row) m

unfoldable pub erase2 : {A : Type 0} → Text → Text → Map2 A → Map2 A
erase2 i j m = erase_inner i j m (lookup i m)

unfoldable pub save_message : DbMessage → InMemoryDb → InMemoryDb
save_message m db = record db { messages = insert m.id m db.messages }

-- A range over a map that keeps some values, in the order of the map.
unfoldable pub keep : {A : Type 0} → (A → Bool) → List (Text × A) → List A
keep p [] = []
keep p ((k, v) ∷ m) = let rest = keep p m in if p v then v ∷ rest else rest

-- `limit` and `offset` are not negative.
unfoldable pub get_messages : Text → ℕ → ℕ → InMemoryDb → List DbMessage
get_messages room limit offset db =
    let found = keep (λ (m : DbMessage). text_eq m.message_room room) db.messages in
    let end = if ltb (length found) (offset + limit) then length found else offset + limit in
    if ltb (length found) offset then [] else take (end - offset) (drop offset found)

abbrev is_reply : Text → DbMessage → Bool
is_reply parent m = elim m.parent_message [ some p ↦ text_eq p parent | none ↦ false ]

unfoldable pub get_thread_messages : Text → InMemoryDb → List DbMessage
get_thread_messages parent db = keep (is_reply parent) db.messages

-- None where the code returns the error "message not found".
unfoldable pub get_message : Text → InMemoryDb → Option DbMessage
get_message id db = lookup id db.messages

unfoldable pub create_room : DbRoom → InMemoryDb → InMemoryDb
create_room r db = record db {
  rooms = insert r.id r db.rooms;
  room_members = insert r.id [] db.room_members;
}

-- None where the code returns the error "room not found".
unfoldable pub get_room : Text → InMemoryDb → Option DbRoom
get_room id db = lookup id db.rooms

unfoldable pub rooms_of : List (Text × DbRoom) → List (Text × Bool) → List DbRoom
rooms_of rooms [] = []
rooms_of rooms ((id, b) ∷ ids) =
    let rest = rooms_of rooms ids in
    elim (lookup id rooms) [ some room ↦ room ∷ rest | none ↦ rest ]

unfoldable pub get_user_rooms : Text → InMemoryDb → List DbRoom
get_user_rooms user db = rooms_of db.rooms (read2 user db.user_rooms)

unfoldable pub delete_room : Text → InMemoryDb → InMemoryDb
delete_room id db = record db { rooms = erase id db.rooms; room_members = erase id db.room_members }

unfoldable pub add_room_member : DbRoomMember → InMemoryDb → InMemoryDb
add_room_member m db = record db {
  room_members = write2 m.room_id m.user_id m db.room_members;
  user_rooms = write2 m.user_id m.room_id true db.user_rooms;
}

unfoldable pub remove_room_member : Text → Text → InMemoryDb → InMemoryDb
remove_room_member room user db = record db {
  room_members = erase2 room user db.room_members;
  user_rooms = erase2 user room db.user_rooms;
}

unfoldable get_room_members : Text → InMemoryDb → List DbRoomMember
get_room_members room db = map (λ e. e.1) (read2 room db.room_members)

abbrev pub is_some : {A : Type 0} → Option A → Bool
is_some (some a) = true
is_some none = false

unfoldable pub is_user_in_room : Text → Text → InMemoryDb → Bool
is_user_in_room room user db = is_some (lookup user (read2 room db.room_members))

unfoldable pub save_read_receipt : DbReadReceipt → InMemoryDb → InMemoryDb
save_read_receipt r db = record db {
  read_receipts = write2 r.message_id r.user_id r db.read_receipts;
}

unfoldable get_read_receipts : Text → InMemoryDb → List DbReadReceipt
get_read_receipts message db = map (λ e. e.1) (read2 message db.read_receipts)

unfoldable in_room_of : List (Text × DbMessage) → Text → Text → Bool
in_room_of messages room message = elim (lookup message messages) [
  | some m ↦ text_eq m.message_room room
  | none ↦ false
]

unfoldable receipts_of :
    List (Text × DbMessage) → Text → Text → Map2 DbReadReceipt → List DbReadReceipt
receipts_of messages user room [] = []
receipts_of messages user room ((message, receipts) ∷ m) =
    let rest = receipts_of messages user room m in
    elim (lookup user receipts) [
      | some r ↦ if in_room_of messages room message then r ∷ rest else rest
      | none ↦ rest
    ]

unfoldable get_user_read_receipts : Text → Text → InMemoryDb → List DbReadReceipt
get_user_read_receipts user room db = receipts_of db.messages user room db.read_receipts
