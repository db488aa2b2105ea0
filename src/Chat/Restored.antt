-- ===== src/Chat/Restored.antt =====
-- What a restored session brings back, and what it does not.
use sio.Base.{
  ◌≡◌, refl, ap, sym, ◌∙◌, ℕ, Bool, true, false, if◌then◌else◌, List, [], ◌∷◌, none, some,
}
use sio.Base.Text.{Text, text_eq, text_eq_iff, text_key}
use sio.Base.Dict.{lookup, lookup-insert}
use sio.Websocket.Types.{Conn}
use sio.Chat.Platform.{Platform}
use sio.Chat.State.{Client, Server, SessionState, in_room, present}
use sio.Chat.Rooms.{mentions}
use sio.Chat.Sessions.{joined_all, new_client, handle_new_connection_with_user}
use sio.Chat.Sound.{knows, known, occupies}
use sio.Chat.Quiet.{Holds}

joined_all-in :
    (rooms : List Text) (room : Text)
    → mentions rooms room ≡ true
    → present (lookup room (joined_all rooms)) ≡ true
unfolding joined_all mentions text_eq
joined_all-in [] room h = absurd cc
joined_all-in (r ∷ rooms) room h =
    ap present (lookup-insert r room true (joined_all rooms))
    ∙ by_name (text_eq r room) (joined_all-in rooms room) h
  where
    by_name :
        (b : Bool)
        → (mentions rooms room ≡ true → present (lookup room (joined_all rooms)) ≡ true)
        → (if b then true else mentions rooms room) ≡ true
        → present (if b then some true else lookup room (joined_all rooms)) ≡ true
    by_name true rest h = refl
    by_name false rest h = rest h

-- Where the invariant holds, a client that connects under a fresh id, with a session that has
-- been in a room, says of itself that it is in the room, so that the handlers let its messages to
-- the room through, while the server does not have it there, so that no message to the room
-- reaches it.
pub handle_new_connection_with_user-absent :
    {D : Type 0} (p : Platform D) (now : ℕ) (id : Text) (conn : Conn) (user name session : Text)
    (old : SessionState) (s : Server D) (room : Text)
    → Holds s
    → lookup id s.objects ≡ none
    → mentions old.rooms room ≡ true
    → let s' = handle_new_connection_with_user p now id conn user name session (some old) s in
      (knows s'.objects room id ≡ true) × (occupies s'.rooms room id ≡ false)
unfolding handle_new_connection_with_user new_client in_room text_eq
handle_new_connection_with_user-absent p now id conn user name session old s room w fresh h = (
  ap (known room) (lookup-insert id id c s.objects)
      ∙ by_own (text_eq id id) ((text_eq_iff id id).1 refl),
  by_place (occupies s.rooms room id) refl,
)
  where
    c : Client
    c = new_client id user name now conn (some old)

    by_own : (b : Bool) → b ≡ true → known room (if b then some c else lookup id s.objects) ≡ true
    by_own true e = joined_all-in old.rooms room h
    by_own false e = absurd cc

    by_place : (b : Bool) → occupies s.rooms room id ≡ b → b ≡ false
    by_place false e = refl
    by_place true e = sym (w.backed room id e) ∙ ap (known room) fresh
