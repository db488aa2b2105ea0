-- ===== src/Hub.antt =====
-- hub.go: the goroutine that owns the sockets and the rooms. Each value received from a channel is
-- a request, and `listen` answers requests one at a time.
pub mod Places
pub mod Keyed
pub mod Members
pub mod Rooms
pub mod Delivery
mod Examples
use sio.Base.{
  ℕ, ◌+◌, Bool, true, false, ◌||◌, not, if◌then◌else◌, List, [], ◌∷◌, ◌++◌, map, Option, none, some,
  ltb, length, ◌==◌,
}
use sio.Base.Text.{Text, text_eq, text_key}
use sio.Base.Dict.{lookup, insert, erase}
use sio.Event.{Data, emit_data}

-- A *Socket as the hub sees it: its id, and the connection that `Emit` writes to.
pub record Handle : Type 0 where
  pub id : Text
  pub ws : ℕ

abbrev pub Sockets : Type 0
Sockets = List (Text × Handle)

pub record Hub : Type 0 where
  pub sockets : Sockets
  pub rooms : List (Text × Sockets)
  pub multihome_enabled : Bool

pub record RoomMsg : Type 0 where
  pub room_name : Text
  pub room_except : List Text
  pub room_event : Text
  pub room_data : Data

pub record BroadcastMsg : Type 0 where
  pub event_name : Text
  pub except : List Text
  pub event_data : Data

-- One constructor for each channel of the hub, with the value it carries.
pub data Request : Type 0 where
  add_socket remove_socket : Handle → Request
  join_room leave_room : Text → Handle → Request
  to_room room_from_backend : RoomMsg → Request
  broadcast broadcast_from_backend : BroadcastMsg → Request
  shutdown : Request

-- What the hub does to the outside: a message on a connection, a call of the backend, and the
-- answer on `socketList`.
pub data Output : Type 0 where
  sent : ℕ → ℕ × List ℕ → Output
  room_to_backend : RoomMsg → Output
  broadcast_to_backend : BroadcastMsg → Output
  socket_list : List Handle → Output

unfoldable pub new_hub : Hub
new_hub = record { sockets = []; rooms = []; multihome_enabled = false }

unfoldable set_multihome_backend : Hub → Hub
set_multihome_backend h = record h { multihome_enabled = true }

-- slices.Contains
unfoldable pub slices_contains : List Text → Text → Bool
slices_contains [] id = false
slices_contains (e ∷ es) id = text_eq e id || slices_contains es id

-- The range over a map of sockets: those that the message goes to.
unfoldable pub receivers : List Text → Sockets → List Handle
receivers except [] = []
receivers except ((id, s) ∷ sockets) =
    let rest = receivers except sockets in
    if ltb 0 (length except)
    then (if not (slices_contains except s.id) then s ∷ rest else rest)
    else s ∷ rest

-- `s.Emit` for each of them; what it returns is not looked at.
unfoldable pub emit_all : Text → Data → List Handle → List Output
emit_all event_name d [] = []
emit_all event_name d (s ∷ ss) = sent s.ws (emit_data event_name d) ∷ emit_all event_name d ss

unfoldable pub emit_room : Hub → RoomMsg → List Output
emit_room h c = elim (lookup c.room_name h.rooms) [
  | some room ↦ emit_all c.room_event c.room_data (receivers c.room_except room)
  | none ↦ []
]

unfoldable pub emit_broadcast : Hub → BroadcastMsg → List Output
emit_broadcast h c = emit_all c.event_name c.event_data (receivers c.except h.sockets)

-- The room is made where it does not exist.
unfoldable pub make_room : Text → List (Text × Sockets) → List (Text × Sockets)
make_room name rooms = elim (lookup name rooms) [ some room ↦ rooms | none ↦ insert name [] rooms ]

unfoldable pub add_to_room : Text → Handle → List (Text × Sockets) → List (Text × Sockets)
add_to_room name s rooms = elim (lookup name rooms) [
  | some room ↦ insert name (insert s.id s room) rooms
  | none ↦ rooms
]

unfoldable pub put_in_room : Text → Handle → Hub → Hub
put_in_room name s h = record h { rooms = add_to_room name s (make_room name h.rooms) }

unfoldable pub take_from_room : Text → Handle → Hub → Hub
take_from_room name s h = elim (lookup name h.rooms) [
  | none ↦ h
  | some room ↦
      let left = erase s.id room in
      let rooms' = insert name left h.rooms in
      record h { rooms = if length left == 0 then erase name rooms' else rooms' }
]

-- One round of `listen`.
unfoldable pub step : Hub → Request → Hub × List Output
step h (add_socket s) = (record h { sockets = insert s.id s h.sockets }, [])
step h (remove_socket s) = (record h { sockets = erase s.id h.sockets }, [])
step h (join_room name s) = (put_in_room name s h, [])
step h (leave_room name s) = (take_from_room name s h, [])
step h (to_room c) =
    (h, emit_room h c ++ (if h.multihome_enabled then room_to_backend c ∷ [] else []))
step h (room_from_backend c) = (h, emit_room h c)
step h (broadcast c) =
    (h, emit_broadcast h c ++ (if h.multihome_enabled then broadcast_to_backend c ∷ [] else []))
step h (broadcast_from_backend c) = (h, emit_broadcast h c)
step h shutdown = (h, socket_list (map (λ e. e.1) h.sockets) ∷ [])

-- The hub behind a sequence of requests.
unfoldable pub listen : Hub → List Request → Hub
listen h [] = h
listen h (r ∷ rs) = listen (step h r).0 rs
