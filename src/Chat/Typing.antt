-- ===== src/Chat/Typing.antt =====
-- chat/server.go: a tick of `cleanupTypingIndicators`.
use sio.Base.{
  ℕ, ◌+◌, ◌*◌, ◌^◌, ◌==◌, Bool, false, if◌then◌else◌, List, [], ◌∷◌, Option, none, some, ltb,
  length,
}
use sio.Base.Text.{Text, text_key}
use sio.Base.Dict.{lookup, insert}
use sio.Chat.Types.{ChatMessage, typing_stop, types}
use sio.Chat.Platform.{Platform}
use sio.Chat.State.{Client, Server, put_client, broadcast_to_room}

-- Ten seconds.
abbrev pub typing_timeout : ℕ
typing_timeout = 10 * 10 ^ 9

-- `now.Sub(lastTyping) > 10*time.Second`
abbrev pub is_stale : ℕ → ℕ → Bool
is_stale now last = ltb (last + typing_timeout) now

-- What a room keeps of its typing clients, and who has stopped.
unfoldable pub still_typing : ℕ → List (Text × ℕ) → List (Text × ℕ)
still_typing now [] = []
still_typing now ((id, last) ∷ m) =
    let rest = still_typing now m in if is_stale now last then rest else (id, last) ∷ rest

unfoldable pub stopped : ℕ → List (Text × ℕ) → List Text
stopped now [] = []
stopped now ((id, last) ∷ m) =
    let rest = stopped now m in if is_stale now last then id ∷ rest else rest

-- The map behind the tick, without the rooms where no one is typing any more.
unfoldable pub sweep : ℕ → List (Text × List (Text × ℕ)) → List (Text × List (Text × ℕ))
sweep now [] = []
sweep now ((room, m) ∷ rooms) =
    let rest = sweep now rooms in
    let left = still_typing now m in if length left == 0 then rest else (room, left) ∷ rest

module _ {D : Type 0} (p : Platform D) where
  abbrev pub stop_message : ℕ → Text → Client → ChatMessage
  stop_message now room c = record {
    kind = typing_stop;
    room_id = room;
    message_id = [];
    payload = types (record { user_id = c.user_id; username = c.username; is_typing = false });
    timestamp = now;
  }

  abbrev pub tell_stopped : ℕ → Text → Option Client → Server D → Server D
  tell_stopped now room none s = s
  tell_stopped now room (some c) s =
      broadcast_to_room p room (stop_message now room c) c.id
        (put_client (record c { is_typing = insert room false c.is_typing }) s)

  -- The object, if the client is still among the server's clients.
  abbrev pub online : Text → Server D → Option Client
  online id s = elim (lookup id s.clients) [ some u ↦ lookup id s.objects | none ↦ none ]

  unfoldable pub tell_all : ℕ → Text → List Text → Server D → Server D
  tell_all now room [] s = s
  tell_all now room (id ∷ ids) s = tell_all now room ids (tell_stopped now room (online id s) s)

  unfoldable pub tell_rooms : ℕ → List (Text × List (Text × ℕ)) → Server D → Server D
  tell_rooms now [] s = s
  tell_rooms now ((room, m) ∷ rooms) s = tell_rooms now rooms (tell_all now room (stopped now m) s)

  -- The messages do not read the typing map, so that it is swept behind them.
  unfoldable pub cleanup_typing_indicators : ℕ → Server D → Server D
  cleanup_typing_indicators now s =
      let told = tell_rooms now s.typing_clients s in
      record told { typing_clients = sweep now s.typing_clients }
