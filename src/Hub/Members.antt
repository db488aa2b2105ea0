-- ===== src/Hub/Members.antt =====
-- Who is connected and who is in which room, from the requests alone.
use sio.Base.{
  ◌≡◌, refl, ap, ◌∙◌, Bool, true, false, ◌==◌, List, [], ◌∷◌, Option, none, some, if◌then◌else◌,
  length,
}
use sio.Base.Text.{Text, text_eq, text_key}
use sio.Base.Dict.{lookup, insert, erase, lookup-insert, lookup-erase}
use sio.Hub.{Handle, Sockets, Hub, Request, new_hub, put_in_room, take_from_room, step, listen}
use sio.Hub.Request.{
  add_socket, remove_socket, join_room, leave_room, to_room, room_from_backend, broadcast,
  broadcast_from_backend, shutdown,
}
use sio.Hub.Places.{member, same_place, member-put_in_room, member-take_from_room}

-- What a request says of a place: a socket, none any more, or nothing.
abbrev pub in_room : Text → Text → Request → Option (Option Handle)
in_room room id (join_room name s) = if same_place name room s.id id then some (some s) else none
in_room room id (leave_room name s) = if same_place name room s.id id then some none else none
in_room room id r = none

abbrev pub on_server : Text → Request → Option (Option Handle)
on_server id (add_socket s) = if text_eq s.id id then some (some s) else none
on_server id (remove_socket s) = if text_eq s.id id then some none else none
on_server id r = none

-- The last word of a sequence of requests on a place, and its effect.
abbrev pub last_word : (Request → Option (Option Handle)) → List Request → Option (Option Handle)
last_word about [] = none
last_word about (r ∷ rs) = elim (last_word about rs) [ some word ↦ some word | none ↦ about r ]

abbrev pub settle : Option (Option Handle) → Option Handle → Option Handle
settle none before = before
settle (some word) before = word

module _ (view : Hub → Option Handle) (about : Request → Option (Option Handle))
    (one : (h : Hub) (r : Request) → view (step h r).0 ≡ settle (about r) (view h)) where
  view-listen :
      (h : Hub) (rs : List Request) → view (listen h rs) ≡ settle (last_word about rs) (view h)
  unfolding listen
  view-listen h [] = refl
  view-listen h (r ∷ rs) =
      view-listen (step h r).0 rs
      ∙ ap (settle (last_word about rs)) (one h r)
      ∙ twice (last_word about rs)
    where
      twice :
          (w : Option (Option Handle))
          → settle w (settle (about r) (view h))
            ≡ settle (elim w [ some word ↦ some word | none ↦ about r ]) (view h)
      twice none = refl
      twice (some word) = refl

settle-if :
    (b : Bool) (word before : Option Handle)
    → (if b then word else before) ≡ settle (if b then some word else none) before
settle-if true word before = refl
settle-if false word before = refl

pub member-step :
    (room id : Text) (h : Hub) (r : Request)
    → member (step h r).0 room id ≡ settle (in_room room id r) (member h room id)
unfolding step
member-step room id h (join_room name s) =
    member-put_in_room name s h room id
    ∙ settle-if (same_place name room s.id id) (some s) (member h room id)
member-step room id h (leave_room name s) =
    member-take_from_room name s h room id
    ∙ settle-if (same_place name room s.id id) none (member h room id)
member-step room id h (add_socket s) = refl
member-step room id h (remove_socket s) = refl
member-step room id h (to_room c) = refl
member-step room id h (room_from_backend c) = refl
member-step room id h (broadcast c) = refl
member-step room id h (broadcast_from_backend c) = refl
member-step room id h shutdown = refl

pub sockets-take_from_room :
    (name : Text) (s : Handle) (h : Hub) → (take_from_room name s h).sockets ≡ h.sockets
unfolding take_from_room
sockets-take_from_room name s h = by_found (lookup name h.rooms)
  where
    by_found :
        (o : Option Sockets)
        → (elim o as (λ q. Hub) [
          | none ↦ h
          | some m ↦
              let left = erase s.id m in
              let rooms' = insert name left h.rooms in
              record h { rooms = if length left == 0 then erase name rooms' else rooms' }
        ]).sockets
          ≡ h.sockets
    by_found none = refl
    by_found (some m) = refl

pub connected-step :
    (id : Text) (h : Hub) (r : Request)
    → lookup id (step h r).0.sockets ≡ settle (on_server id r) (lookup id h.sockets)
unfolding step text_eq put_in_room
connected-step id h (add_socket s) =
    lookup-insert s.id id s h.sockets ∙ settle-if (text_eq s.id id) (some s) (lookup id h.sockets)
connected-step id h (remove_socket s) =
    lookup-erase s.id id h.sockets ∙ settle-if (text_eq s.id id) none (lookup id h.sockets)
connected-step id h (join_room name s) = refl
connected-step id h (leave_room name s) = ap (λ m. lookup id m) (sockets-take_from_room name s h)
connected-step id h (to_room c) = refl
connected-step id h (room_from_backend c) = refl
connected-step id h (broadcast c) = refl
connected-step id h (broadcast_from_backend c) = refl
connected-step id h shutdown = refl

-- However the requests are ordered, a room has a socket under an id exactly if the last request
-- that joins or leaves that room under that id is a join, and then it has the socket of that
-- request; rooms that come into being and that are deleted on the way make no difference.
pub member-listen :
    (rs : List Request) (room id : Text)
    → member (listen new_hub rs) room id ≡ settle (last_word (in_room room id) rs) none
unfolding new_hub lookup
member-listen rs room id =
    view-listen (λ h. member h room id) (in_room room id) (member-step room id) new_hub rs

-- The hub has a socket under an id exactly if the last request that adds or removes that id adds
-- it, whatever the rooms do.
pub connected-listen :
    (rs : List Request) (id : Text)
    → lookup id (listen new_hub rs).sockets ≡ settle (last_word (on_server id) rs) none
unfolding new_hub lookup
connected-listen rs id =
    view-listen (λ h. lookup id h.sockets) (on_server id) (connected-step id) new_hub rs
