-- ===== src/Server/Quiet.antt =====
-- A socket that is closed, and the others.
use sio.Base.{
  ◌≡◌, refl, ap, ◌∙◌, sym, Bool, true, false, ◌&&◌, List, [], ◌∷◌, Option, none, some,
  if◌then◌else◌,
}
use mathlib.Core.Path.{subst}
use sio.Base.Text.{Text, text_eq, text_key}
use sio.Base.Dict.{lookup}
use sio.Hub.{Handle, Hub, Request}
use sio.Hub.Places.{member}
use sio.Hub.Members.{member-step, connected-step, settle, on_server, in_room as about}
use sio.Hub.Request.{
  add_socket, remove_socket, join_room, leave_room, to_room, room_from_backend, broadcast,
  broadcast_from_backend, shutdown,
}
use sio.Socket.{
  Socket, System, Fate, Call, ask, join, leave, leave_all, get_rooms, leave_rooms, joins, leaves,
  leaves_all, others, call, calls, close,
}
use sio.Socket.Agreement.{AllForeign, leave_rooms-handle, call-handle}
use sio.Socket.Closing.{marked, left, handled, handled-handle, close-clean}

-- The hub has the same under an id.
pub record Same (id : Text) (h h' : Hub) : Type 0 where
  pub connected : lookup id h'.sockets ≡ lookup id h.sockets
  pub places : (room : Text) → member h' room id ≡ member h room id

pub unchanged : (id : Text) (h : Hub) → Same id h h
unchanged id h = record { connected = refl; places = λ room. refl }

pub then-Same : (id : Text) (h h' h'' : Hub) → Same id h h' → Same id h' h'' → Same id h h''
then-Same id h h' h'' p q = record {
  connected = q.connected ∙ p.connected;
  places = λ room. q.places room ∙ p.places room;
}

ask-Same :
    (id : Text) (r : Request) (y : System)
    → on_server id r ≡ none
    → ((room : Text) → about room id r ≡ none)
    → Same id y.hub (ask r y).hub
unfolding ask
ask-Same id r y e f = record {
  connected = connected-step id y.hub r ∙ ap (λ w. settle w (lookup id y.hub.sockets)) e;
  places = λ room. member-step room id y.hub r ∙ ap (λ w. settle w (member y.hub room id)) (f room);
}

skipped :
    (b c : Bool) (w : Option Handle)
    → c ≡ false
    → ◌≡◌ {A = Option (Option Handle)} (if b && c then some w else none) none
skipped b true w e = absurd cc
skipped true false w e = refl
skipped false false w e = refl

join-Same :
    (room id : Text) (s : Socket) (y : System)
    → text_eq s.handle.id id ≡ false
    → Same id y.hub (join room s y).1.hub
unfolding join
join-Same room id s y e =
    ask-Same id (join_room room s.handle) y refl
      (λ r. skipped (text_eq room r) (text_eq s.handle.id id) (some s.handle) e)

leave-Same :
    (room id : Text) (s : Socket) (y : System)
    → text_eq s.handle.id id ≡ false
    → Same id y.hub (leave room s y).1.hub
unfolding leave
leave-Same room id s y e =
    ask-Same id (leave_room room s.handle) y refl
      (λ r. skipped (text_eq room r) (text_eq s.handle.id id) none e)

leave_rooms-Same :
    (rooms : List Text) (id : Text) (s : Socket) (y : System)
    → text_eq s.handle.id id ≡ false
    → Same id y.hub (leave_rooms rooms s y).1.hub
unfolding leave_rooms leave
leave_rooms-Same [] id s y e = unchanged id y.hub
leave_rooms-Same (room ∷ rooms) id s y e =
    then-Same id y.hub (leave room s y).1.hub (leave_rooms (room ∷ rooms) s y).1.hub
      (leave-Same room id s y e) (leave_rooms-Same rooms id (leave room s y).0 (leave room s y).1 e)

-- A handler that joins and leaves rooms with its own socket, while the hub is asked for nothing
-- else than to send.
abbrev pub IsQuiet : Call → Type 0
IsQuiet (others (add_socket t)) = ⊥
IsQuiet (others (remove_socket t)) = ⊥
IsQuiet (others (join_room room t)) = ⊥
IsQuiet (others (leave_room room t)) = ⊥
IsQuiet c = Unit {0}

abbrev pub AllQuiet : List Call → Type 0
AllQuiet [] = Unit {0}
AllQuiet (c ∷ cs) = IsQuiet c × AllQuiet cs

pub AllQuiet-AllForeign : (id : Text) (cs : List Call) → AllQuiet cs → AllForeign id cs
AllQuiet-AllForeign id [] q = tt
AllQuiet-AllForeign id (joins room ∷ cs) (q, qs) = (tt, AllQuiet-AllForeign id cs qs)
AllQuiet-AllForeign id (leaves room ∷ cs) (q, qs) = (tt, AllQuiet-AllForeign id cs qs)
AllQuiet-AllForeign id (leaves_all ∷ cs) (q, qs) = (tt, AllQuiet-AllForeign id cs qs)
AllQuiet-AllForeign id (others (add_socket t) ∷ cs) (q, qs) = absurd q
AllQuiet-AllForeign id (others (remove_socket t) ∷ cs) (q, qs) = absurd q
AllQuiet-AllForeign id (others (join_room room t) ∷ cs) (q, qs) = absurd q
AllQuiet-AllForeign id (others (leave_room room t) ∷ cs) (q, qs) = absurd q
AllQuiet-AllForeign id (others (to_room m) ∷ cs) (q, qs) = (tt, AllQuiet-AllForeign id cs qs)
AllQuiet-AllForeign id (others (room_from_backend m) ∷ cs) (q, qs) =
    (tt, AllQuiet-AllForeign id cs qs)
AllQuiet-AllForeign id (others (broadcast m) ∷ cs) (q, qs) = (tt, AllQuiet-AllForeign id cs qs)
AllQuiet-AllForeign id (others (broadcast_from_backend m) ∷ cs) (q, qs) =
    (tt, AllQuiet-AllForeign id cs qs)
AllQuiet-AllForeign id (others shutdown ∷ cs) (q, qs) = (tt, AllQuiet-AllForeign id cs qs)

call-Same :
    (id : Text) (c : Call) (s : Socket) (y : System)
    → IsQuiet c
    → text_eq s.handle.id id ≡ false
    → Same id y.hub (call c (s, y)).1.hub
unfolding leave_all
call-Same id (joins room) s y q e = join-Same room id s y e
call-Same id (leaves room) s y q e = leave-Same room id s y e
call-Same id leaves_all s y q e = leave_rooms-Same (get_rooms s) id s y e
call-Same id (others (add_socket t)) s y q e = absurd q
call-Same id (others (remove_socket t)) s y q e = absurd q
call-Same id (others (join_room room t)) s y q e = absurd q
call-Same id (others (leave_room room t)) s y q e = absurd q
call-Same id (others (to_room m)) s y q e = ask-Same id (to_room m) y refl (λ r. refl)
call-Same id (others (room_from_backend m)) s y q e =
    ask-Same id (room_from_backend m) y refl (λ r. refl)
call-Same id (others (broadcast m)) s y q e = ask-Same id (broadcast m) y refl (λ r. refl)
call-Same id (others (broadcast_from_backend m)) s y q e =
    ask-Same id (broadcast_from_backend m) y refl (λ r. refl)
call-Same id (others shutdown) s y q e = ask-Same id shutdown y refl (λ r. refl)

calls-Same :
    (id : Text) (cs : List Call) (s : Socket) (y : System)
    → AllQuiet cs
    → text_eq s.handle.id id ≡ false
    → Same id y.hub (calls cs (s, y)).1.hub
calls-Same id [] s y q e = unchanged id y.hub
calls-Same id (c ∷ cs) s y (q, qs) e =
    then-Same id y.hub (call c (s, y)).1.hub (calls (c ∷ cs) (s, y)).1.hub (call-Same id c s y q e)
      (calls-Same id cs (call c (s, y)).0 (call c (s, y)).1 qs
        (ap (λ (t : Handle). text_eq t.id id) (call-handle c s y) ∙ e))

-- Nothing fails outside, and the handler is quiet.
abbrev pub IsSmooth : Fate → Type 0
IsSmooth fate = (fate.ws_fails ≡ false) × (fate.handler_fails ≡ false) × AllQuiet fate.handler

-- A socket that is closed with no failure leaves what the hub has under another id.
pub close-Same :
    (fate : Fate) (s : Socket) (y : System) (id : Text)
    → s.closed ≡ false
    → IsSmooth fate
    → text_eq s.handle.id id ≡ false
    → Same id y.hub (close fate s y).1.1.hub
close-Same fate s y id o (w, h, q) e =
    subst (λ (r : Bool × (Socket × System)). Same id y.hub r.1.1.hub)
      (sym (close-clean fate s y o w h))
      (then-Same id y.hub done.1.hub (ask (remove_socket done.0.handle) done.1).hub
        (then-Same id y.hub (left s y).1.hub done.1.hub
          (leave_rooms-Same (get_rooms (marked s)) id (marked s) y e)
          (calls-Same id fate.handler (left s y).0 (left s y).1 q (
            ap (λ (t : Handle). text_eq t.id id)
              (leave_rooms-handle (get_rooms (marked s)) (marked s) y)
            ∙ e)))
        (ask-Same id (remove_socket done.0.handle) done.1
          (ap (λ b. if b then some none else none)
            (ap (λ (t : Handle). text_eq t.id id) (handled-handle fate s y) ∙ e))
          (λ room. refl)))
  where
    done : Socket × System
    done = handled fate s y
