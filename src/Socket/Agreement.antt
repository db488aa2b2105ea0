-- ===== src/Socket/Agreement.antt =====
-- What a socket knows of its rooms and what the hub knows.
use mathlib.Core.Path.{subst}
use sio.Base.{
  ◌≡◌, refl, ap, ◌∙◌, sym, Bool, true, false, ◌&&◌, List, [], ◌∷◌, Option, none, some,
  if◌then◌else◌,
}
use sio.Base.Text.{Text, text_eq, text_eq_iff, text_key}
use sio.Base.Dict.{lookup, lookup-insert, lookup-erase}
use sio.Hub.{Handle, Hub, Request, step}
use sio.Hub.Request.{
  add_socket, remove_socket, join_room, leave_room, to_room, room_from_backend, broadcast,
  broadcast_from_backend, shutdown,
}
use sio.Hub.Places.{member, member-put_in_room, member-take_from_room}
use sio.Hub.Members.{member-step, settle, in_room as about}
use sio.Socket.{
  Socket, System, Call, present, ask, join, leave, in_room, get_rooms, leave_rooms, leave_all,
  joins, leaves, leaves_all, others, call, calls,
}

-- The hub has the socket in exactly the rooms that the socket has.
abbrev pub Agrees : Socket → Hub → Type 0
Agrees s h =
    (room : Text) → member h room s.handle.id ≡ (if in_room room s then some s.handle else none)

pub join-Agrees :
    (room : Text) (s : Socket) (y : System)
    → Agrees s y.hub
    → Agrees (join room s y).0 (join room s y).1.hub
unfolding join ask step in_room text_eq
join-Agrees room s y a r =
    member-put_in_room room s.handle y.hub r s.handle.id
    ∙ by_name (text_eq room r) (text_eq s.handle.id s.handle.id)
        ((text_eq_iff s.handle.id s.handle.id).1 refl)
    ∙ ap (λ o. if present o then some s.handle else none) (sym (lookup-insert room r true s.rooms))
  where
    by_name :
        (b same : Bool)
        → same ≡ true
        → (if b && same then some s.handle else member y.hub r s.handle.id)
          ≡ (if present (if b then some true else lookup r s.rooms) then some s.handle else none)
    by_name true true e = refl
    by_name false true e = a r
    by_name b false e = absurd cc

leave-Agrees :
    (room : Text) (s : Socket) (y : System)
    → Agrees s y.hub
    → Agrees (leave room s y).0 (leave room s y).1.hub
unfolding leave ask step in_room text_eq
leave-Agrees room s y a r =
    member-take_from_room room s.handle y.hub r s.handle.id
    ∙ by_name (text_eq room r) (text_eq s.handle.id s.handle.id)
        ((text_eq_iff s.handle.id s.handle.id).1 refl)
    ∙ ap (λ o. if present o then some s.handle else none) (sym (lookup-erase room r s.rooms))
  where
    by_name :
        (b same : Bool)
        → same ≡ true
        → (if b && same then none else member y.hub r s.handle.id)
          ≡ (if present (if b then none else lookup r s.rooms) then some s.handle else none)
    by_name true true e = refl
    by_name false true e = a r
    by_name b false e = absurd cc

pub leave_rooms-Agrees :
    (rooms : List Text) (s : Socket) (y : System)
    → Agrees s y.hub
    → Agrees (leave_rooms rooms s y).0 (leave_rooms rooms s y).1.hub
unfolding leave_rooms
leave_rooms-Agrees [] s y a = a
leave_rooms-Agrees (room ∷ rooms) s y a =
    leave_rooms-Agrees rooms (leave room s y).0 (leave room s y).1 (leave-Agrees room s y a)

-- A request that is about another socket, or about none.
abbrev pub IsForeign : Text → Request → Type 0
IsForeign id (join_room name t) = text_eq t.id id ≡ false
IsForeign id (leave_room name t) = text_eq t.id id ≡ false
IsForeign id r = Unit {0}

pub foreign-Agrees :
    (r : Request) (s : Socket) (y : System)
    → IsForeign s.handle.id r
    → Agrees s y.hub
    → Agrees s (ask r y).hub
unfolding ask
foreign-Agrees r s y f a room = member-step room s.handle.id y.hub r ∙ silent r f ∙ a room
  where
    skip :
        (b c : Bool) (w : Option Handle)
        → c ≡ false
        → settle (if b && c then some w else none) (member y.hub room s.handle.id)
          ≡ member y.hub room s.handle.id
    skip b true w e = absurd cc
    skip true false w e = refl
    skip false false w e = refl

    silent :
        (q : Request)
        → IsForeign s.handle.id q
        → settle (about room s.handle.id q) (member y.hub room s.handle.id)
          ≡ member y.hub room s.handle.id
    silent (join_room name t) f = skip (text_eq name room) (text_eq t.id s.handle.id) (some t) f
    silent (leave_room name t) f = skip (text_eq name room) (text_eq t.id s.handle.id) none f
    silent (add_socket t) f = refl
    silent (remove_socket t) f = refl
    silent (to_room c) f = refl
    silent (room_from_backend c) f = refl
    silent (broadcast c) f = refl
    silent (broadcast_from_backend c) f = refl
    silent shutdown f = refl

abbrev pub IsApart : Text → Call → Type 0
IsApart id (others r) = IsForeign id r
IsApart id (joins room) = Unit {0}
IsApart id (leaves room) = Unit {0}
IsApart id leaves_all = Unit {0}

abbrev pub AllForeign : Text → List Call → Type 0
AllForeign id [] = Unit {0}
AllForeign id (c ∷ cs) = IsApart id c × AllForeign id cs

pub leave_rooms-handle :
    (rooms : List Text) (s : Socket) (y : System) → (leave_rooms rooms s y).0.handle ≡ s.handle
unfolding leave_rooms leave
leave_rooms-handle [] s y = refl
leave_rooms-handle (room ∷ rooms) s y =
    leave_rooms-handle rooms (leave room s y).0 (leave room s y).1

pub call-handle : (c : Call) (s : Socket) (y : System) → (call c (s, y)).0.handle ≡ s.handle
unfolding join leave leave_all
call-handle (joins room) s y = refl
call-handle (leaves room) s y = refl
call-handle leaves_all s y = leave_rooms-handle (get_rooms s) s y
call-handle (others r) s y = refl

call-Agrees :
    (c : Call) (s : Socket) (y : System)
    → IsApart s.handle.id c
    → Agrees s y.hub
    → Agrees (call c (s, y)).0 (call c (s, y)).1.hub
unfolding leave_all
call-Agrees (joins room) s y f a = join-Agrees room s y a
call-Agrees (leaves room) s y f a = leave-Agrees room s y a
call-Agrees leaves_all s y f a = leave_rooms-Agrees (get_rooms s) s y a
call-Agrees (others r) s y f a = foreign-Agrees r s y f a

-- Whatever sequence of `Join`, `Leave` and `LeaveAll` a socket makes, with any requests about
-- other sockets in between, the hub has it in exactly the rooms that its own record says, if it
-- did before.
pub calls-Agrees :
    (cs : List Call) (s : Socket) (y : System)
    → AllForeign s.handle.id cs
    → Agrees s y.hub
    → Agrees (calls cs (s, y)).0 (calls cs (s, y)).1.hub
calls-Agrees [] s y f a = a
calls-Agrees (c ∷ cs) s y (f, fs) a =
    let s' = (call c (s, y)).0 in
    calls-Agrees cs s' (call c (s, y)).1
      (subst (λ t. AllForeign t.id cs) (sym (call-handle c s y)) fs) (call-Agrees c s y f a)
