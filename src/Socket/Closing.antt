-- ===== src/Socket/Closing.antt =====
-- What a closed socket leaves behind.
use mathlib.Core.Path.{subst}
use sio.Base.{
  ◌≡◌, refl, ap, ◌∙◌, sym, inl, inr, Bool, true, false, ◌||◌, List, [], ◌∷◌, none, some,
  if◌then◌else◌, if-true, if-false, Bool-cases,
}
use sio.Base.Text.{Text, text_eq, text_eq_iff, text_key}
use sio.Base.Dict.{lookup, erase, lookup-erase}
use sio.Hub.{Handle, step, put_in_room}
use sio.Hub.Request.{
  add_socket, remove_socket, join_room, leave_room, to_room, room_from_backend, broadcast,
  broadcast_from_backend, shutdown,
}
use sio.Hub.Places.{member}
use sio.Hub.Members.{sockets-take_from_room}
use sio.Socket.{
  Socket, System, Fate, Call, ask, join, leave, leave_all, in_room, get_rooms, leave_rooms, joins,
  leaves, leaves_all, others, call, calls, finish, close,
}
use sio.Socket.Agreement.{
  Agrees, AllForeign, leave_rooms-Agrees, leave_rooms-handle, call-handle, calls-Agrees,
}
use sio.Socket.Rejoining.{rejoins, in_room-calls, in_room-leave_all}

pub leave_rooms-closed :
    (rooms : List Text) (s : Socket) (y : System) → (leave_rooms rooms s y).0.closed ≡ s.closed
unfolding leave_rooms leave
leave_rooms-closed [] s y = refl
leave_rooms-closed (room ∷ rooms) s y =
    leave_rooms-closed rooms (leave room s y).0 (leave room s y).1

pub leave_rooms-sockets :
    (rooms : List Text) (s : Socket) (y : System)
    → (leave_rooms rooms s y).1.hub.sockets ≡ y.hub.sockets
unfolding leave_rooms leave ask step
leave_rooms-sockets [] s y = refl
leave_rooms-sockets (room ∷ rooms) s y =
    leave_rooms-sockets rooms (leave room s y).0 (leave room s y).1
    ∙ sockets-take_from_room room s.handle y.hub

-- A socket in the hands of `Close`, and what its leaving of all rooms gives.
abbrev pub marked : Socket → Socket
marked s = record s { closed = true }

abbrev pub left : Socket → System → Socket × System
left s y = leave_rooms (get_rooms (marked s)) (marked s) y

-- What the handler of `OnDisconnect` then gives.
abbrev pub handled : Fate → Socket → System → Socket × System
handled fate s y = calls fate.handler (left s y)

close-open :
    (fate : Fate) (s : Socket) (y : System)
    → s.closed ≡ false
    → close fate s y ≡ (
        if fate.ws_fails
        then (true, (marked s, y))
        else if fate.handler_fails
        then (true, handled fate s y)
        else (false, finish (handled fate s y)))
unfolding close
close-open fate s y e = if-false s.closed (false, (s, y)) _ e

pub close-clean :
    (fate : Fate) (s : Socket) (y : System)
    → s.closed ≡ false
    → fate.ws_fails ≡ false
    → fate.handler_fails ≡ false
    → close fate s y ≡ (false, finish (handled fate s y))
close-clean fate s y e w h =
    close-open fate s y e
    ∙ if-false fate.ws_fails (true, (marked s, y)) _ w
    ∙ if-false fate.handler_fails (true, handled fate s y) _ h

erased : (i j : Text) (m : List (Text × Handle)) → i ≡ j → lookup j (erase i m) ≡ none
unfolding text_eq
erased i j m e =
    lookup-erase i j m ∙ if-true (text_eq i j) none (lookup j m) ((text_eq_iff i j).1 e)

pub calls-handle :
    (cs : List Call) (s : Socket) (y : System) → (calls cs (s, y)).0.handle ≡ s.handle
calls-handle [] s y = refl
calls-handle (c ∷ cs) s y = calls-handle cs (call c (s, y)).0 (call c (s, y)).1 ∙ call-handle c s y

pub calls-closed :
    (cs : List Call) (s : Socket) (y : System) → (calls cs (s, y)).0.closed ≡ s.closed
unfolding join leave leave_all
calls-closed [] s y = refl
calls-closed (c ∷ cs) s y = calls-closed cs (call c (s, y)).0 (call c (s, y)).1 ∙ one c
  where
    one : (c : Call) → (call c (s, y)).0.closed ≡ s.closed
    one (joins room) = refl
    one (leaves room) = refl
    one leaves_all = leave_rooms-closed (get_rooms s) s y
    one (others r) = refl

pub handled-handle :
    (fate : Fate) (s : Socket) (y : System) → (handled fate s y).0.handle ≡ s.handle
handled-handle fate s y =
    calls-handle fate.handler (left s y).0 (left s y).1
    ∙ leave_rooms-handle (get_rooms (marked s)) (marked s) y

handled-closed : (fate : Fate) (s : Socket) (y : System) → (handled fate s y).0.closed ≡ true
handled-closed fate s y =
    calls-closed fate.handler (left s y).0 (left s y).1
    ∙ leave_rooms-closed (get_rooms (marked s)) (marked s) y

-- The rooms in which the hub has the socket behind the handler.
pub handled-member :
    (fate : Fate) (s : Socket) (y : System)
    → Agrees s y.hub
    → AllForeign s.handle.id fate.handler
    → (room : Text)
    → member (handled fate s y).1.hub room s.handle.id
      ≡ (if rejoins room false fate.handler then some s.handle else none)
unfolding in_room
handled-member fate s y a f room =
    ap (λ t. member after.1.hub room t.id) (sym (handled-handle fate s y))
    ∙ calls-Agrees fate.handler (left s y).0 (left s y).1
        (subst (λ t. AllForeign t.id fate.handler)
          (sym (leave_rooms-handle (get_rooms (marked s)) (marked s) y)) f)
        (leave_rooms-Agrees (get_rooms (marked s)) (marked s) y a) room
    ∙ ap (λ t. if in_room room after.0 then some t else none) (handled-handle fate s y)
    ∙ ap (λ b. if b then some s.handle else none)
        (in_room-calls room fate.handler (left s y).0 (left s y).1
          ∙ ap (λ b. rejoins room b fate.handler) (in_room-leave_all (marked s) y room))
  where
    after : Socket × System
    after = handled fate s y

-- An open socket that the hub agrees with, closed with no failure outside: no error is returned,
-- the hub has it no more among its sockets, and it has it in exactly the rooms that the handler of
-- `OnDisconnect` has joined and not left again.
pub close_gone :
    (fate : Fate) (s : Socket) (y : System)
    → s.closed ≡ false
    → Agrees s y.hub
    → AllForeign s.handle.id fate.handler
    → fate.ws_fails ≡ false
    → fate.handler_fails ≡ false
    → let (failed, (s', y')) = close fate s y in
      (failed ≡ false)
      × (s'.closed ≡ true)
      × (lookup s.handle.id y'.hub.sockets ≡ none)
      × ((room : Text)
          → member y'.hub room s.handle.id
            ≡ (if rejoins room false fate.handler then some s.handle else none))
unfolding ask step
close_gone fate s y e a f w h =
    let same = close-clean fate s y e w h in
    (
      ap (λ r. r.0) same,
      ap (λ r. r.1.0.closed) same ∙ handled-closed fate s y,
      ap (λ r. lookup s.handle.id r.1.1.hub.sockets) same
          ∙ erased (handled fate s y).0.handle.id s.handle.id (handled fate s y).1.hub.sockets
              (ap (λ t. t.id) (handled-handle fate s y)),
      λ room. ap (λ r. member r.1.1.hub room s.handle.id) same ∙ handled-member fate s y a f room,
    )

-- A request that neither adds a socket nor removes one.
abbrev pub IsSteady : Call → Type 0
IsSteady (others (add_socket t)) = ⊥
IsSteady (others (remove_socket t)) = ⊥
IsSteady c = Unit {0}

abbrev pub AllSteady : List Call → Type 0
AllSteady [] = Unit {0}
AllSteady (c ∷ cs) = IsSteady c × AllSteady cs

call-sockets :
    (c : Call) (s : Socket) (y : System)
    → IsSteady c
    → (call c (s, y)).1.hub.sockets ≡ y.hub.sockets
unfolding join leave leave_all ask step put_in_room
call-sockets (joins room) s y q = refl
call-sockets (leaves room) s y q = sockets-take_from_room room s.handle y.hub
call-sockets leaves_all s y q = leave_rooms-sockets (get_rooms s) s y
call-sockets (others (add_socket t)) s y q = absurd q
call-sockets (others (remove_socket t)) s y q = absurd q
call-sockets (others (join_room room t)) s y q = refl
call-sockets (others (leave_room room t)) s y q = sockets-take_from_room room t y.hub
call-sockets (others (to_room m)) s y q = refl
call-sockets (others (room_from_backend m)) s y q = refl
call-sockets (others (broadcast m)) s y q = refl
call-sockets (others (broadcast_from_backend m)) s y q = refl
call-sockets (others shutdown) s y q = refl

calls-sockets :
    (cs : List Call) (s : Socket) (y : System)
    → AllSteady cs
    → (calls cs (s, y)).1.hub.sockets ≡ y.hub.sockets
calls-sockets [] s y q = refl
calls-sockets (c ∷ cs) s y (q, qs) =
    calls-sockets cs (call c (s, y)).0 (call c (s, y)).1 qs ∙ call-sockets c s y q

-- Where `ws.Close` or the handler of `OnDisconnect` fails, the error is returned and the socket
-- counts as closed, but it stays among the hub's sockets, for broadcasts and `SocketList` to find:
-- whatever rooms the handler joins and leaves before, while no other socket comes or goes, the
-- hub's sockets are those that it had.
pub close_leaks :
    (fate : Fate) (s : Socket) (y : System)
    → s.closed ≡ false
    → (fate.ws_fails || fate.handler_fails) ≡ true
    → AllSteady fate.handler
    → let (failed, (s', y')) = close fate s y in
      (failed ≡ true) × (s'.closed ≡ true) × (y'.hub.sockets ≡ y.hub.sockets)
close_leaks fate s y e w steady =
    let same = close-open fate s y e in
    subst (λ r. (r.0 ≡ true) × (r.1.0.closed ≡ true) × (r.1.1.hub.sockets ≡ y.hub.sockets))
      (sym same) (by_fate fate.ws_fails fate.handler_fails w)
  where
    by_fate :
        (b c : Bool)
        → (b || c) ≡ true
        → let r : Bool × (Socket × System) =
            if b
            then (true, (marked s, y))
            else if c
            then (true, handled fate s y)
            else (false, finish (handled fate s y)) in
          (r.0 ≡ true) × (r.1.0.closed ≡ true) × (r.1.1.hub.sockets ≡ y.hub.sockets)
    by_fate true c q = (refl, refl, refl)
    by_fate false true q = (
      refl,
      handled-closed fate s y,
      calls-sockets fate.handler (left s y).0 (left s y).1 steady
          ∙ leave_rooms-sockets (get_rooms (marked s)) (marked s) y,
    )
    by_fate false false q = absurd cc

closed-open :
    (fate : Fate) (s : Socket) (y : System)
    → (b c : Bool)
    → (let r : Bool × (Socket × System) =
          if b
          then (true, (marked s, y))
          else if c
          then (true, handled fate s y)
          else (false, finish (handled fate s y)) in
        r.1.0.closed)
      ≡ true
closed-open fate s y true c = refl
closed-open fate s y false true = handled-closed fate s y
closed-open fate s y false false = handled-closed fate s y

closed-close : (fate : Fate) (s : Socket) (y : System) → (close fate s y).1.0.closed ≡ true
unfolding close
closed-close fate s y = elim (Bool-cases s.closed) [
  | inl e ↦
      ap (λ (r : Bool × (Socket × System)). r.1.0.closed) (if-true s.closed (false, (s, y)) _ e) ∙ e
  | inr e ↦
      ap (λ (r : Bool × (Socket × System)). r.1.0.closed) (close-open fate s y e)
      ∙ closed-open fate s y fate.ws_fails fate.handler_fails
]

-- Whatever happened to the first `Close`, a second one returns no error and changes nothing: what
-- the first one left in the hub stays there.
pub close-close :
    (fate again : Fate) (s : Socket) (y : System)
    → let (failed, (s', y')) = close fate s y in close again s' y' ≡ (false, (s', y'))
unfolding close
close-close fate again s y =
    if-true (close fate s y).1.0.closed (false, (close fate s y).1) _ (closed-close fate s y)
