-- ===== src/Server/Looping.antt =====
-- What a connection leaves behind.
use sio.Base.{ℕ, ◌≡◌, sym, false, List, [], none, some, if◌then◌else◌}
use mathlib.Core.Path.{subst}
use sio.Base.Text.{Text, text_key}
use sio.Base.Dict.{lookup}
use sio.Hub.{Handle}
use sio.Hub.Places.{member}
use sio.Hub.Request.{add_socket}
use sio.Socket.{
  Socket, System, Fate, Call, ask, new_socket, join, in_room, close, socket_room, calls,
}
use sio.Socket.Agreement.{Agrees, join-Agrees, foreign-Agrees, AllForeign, calls-Agrees}
use sio.Socket.Closing.{calls-handle, calls-closed, close_gone}
use sio.Socket.Rejoining.{rejoins}
use sio.Server.{loop}

-- A new connection under an id that no room has: whatever rooms it joins and leaves while it
-- lasts, and whatever else the hub is asked meanwhile, when it has ended with no failure outside
-- the hub has it no more among its sockets, and in exactly the rooms that the handler of
-- `OnDisconnect` joins in the end without leaving them again. No request of others, during the
-- connection and in that handler, joins or leaves rooms under the connection's id.
pub loop-gone {ℓ} :
    {H : Type ℓ} (h : Handle) (during : List Call) (rounds : List (List (Text × H) × List ℕ))
    (fate : Fate) (y : System)
    → ((room : Text) → member y.hub room h.id ≡ none)
    → AllForeign h.id during
    → AllForeign h.id fate.handler
    → fate.ws_fails ≡ false
    → fate.handler_fails ≡ false
    → let (failed, (s', y')) = (loop h during rounds fate y).1 in
      (failed ≡ false)
      × (lookup h.id y'.hub.sockets ≡ none)
      × ((room : Text)
          → member y'.hub room h.id ≡ (if rejoins room false fate.handler then some h else none))
unfolding loop new_socket in_room join lookup
loop-gone h during rounds fate y fresh foreign foreign' no_error no_failure =
    let gone =
      close_gone fate ended.0 ended.1 not_closed agreed
        (subst (λ t. AllForeign t.id fate.handler) (sym own) foreign') no_error no_failure in
    (
      gone.0,
      subst (λ t. lookup t.id (close fate ended.0 ended.1).1.1.hub.sockets ≡ none) own gone.2,
      λ room.
          subst
            (λ (t : Handle).
              member (close fate ended.0 ended.1).1.1.hub room t.id
              ≡ (if rejoins room false fate.handler then some t else none))
            own (gone.3 room),
    )
  where
    s : Socket
    s = record { handle = h; closed = false; rooms = []; ping_stopped = false }

    joined : Socket × System
    joined = join (socket_room h.id) s (ask (add_socket h) y)

    ended : Socket × System
    ended = calls during joined

    own : ended.0.handle ≡ h
    own = calls-handle during joined.0 joined.1

    not_closed : ended.0.closed ≡ false
    not_closed = calls-closed during joined.0 joined.1

    agreed : Agrees ended.0 ended.1.hub
    agreed = calls-Agrees during joined.0 joined.1 foreign (
        join-Agrees (socket_room h.id) s (ask (add_socket h) y)
          (foreign-Agrees (add_socket h) s y tt fresh))
