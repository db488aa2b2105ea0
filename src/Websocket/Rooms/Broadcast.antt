-- ===== src/Websocket/Rooms/Broadcast.antt =====
-- Whom a broadcast of the websocket server reaches.
use sio.Base.Names.{IsDistinct, insert-IsDistinct, erase-IsDistinct, is_in}
use sio.Base.{
  ℕ, ◌==◌, ◌≡◌, refl, ap, sym, ◌∙◌, Bool, true, false, if◌then◌else◌, List, [], ◌∷◌, Option, none,
  some, length,
}
use mathlib.Core.Path.{subst}
use sio.Base.Text.{Text, text_eq, text_eq_iff, text_key}
use sio.Base.Dict.{lookup, insert, erase, lookup-insert, lookup-erase}
use sio.Websocket.Types.{Conn, Env}
use sio.Websocket.Message.{write_message}
use sio.Websocket.Rooms.{
  ConnSet, RoomMap, or_nil, conns_of, enter_room, take_conn, quit_room, write_found, write_each,
  broadcast_room,
}
use sio.Websocket.Rooms.Members.{
  member, Change, enters, quits, change, changes, is_listed, member-changes,
}

abbrev pub AllOnce : RoomMap → Type 0
AllOnce rooms = (room : Text) → IsDistinct (conns_of room rooms)

-- A connection after a message was written to it.
abbrev pub sent_to : Env → ℕ → List ℕ → Option Conn → Option Conn
sent_to env kind bytes none = none
sent_to env kind bytes (some conn) = some (write_message env kind bytes conn).1

write_found-lookup :
    (env : Env) (kind : ℕ) (bytes : List ℕ) (c i : Text) (conns : List (Text × Conn))
    → lookup i (write_found env kind bytes c (lookup c conns) conns)
      ≡ (if text_eq c i then sent_to env kind bytes (lookup i conns) else lookup i conns)
unfolding text_eq
write_found-lookup env kind bytes c i conns = by_found (lookup c conns) refl
  where
    by_name :
        (b : Bool) (o : Option Conn)
        → text_eq c i ≡ b
        → lookup c conns ≡ o
        → (if b then sent_to env kind bytes o else lookup i conns)
          ≡ (if b then sent_to env kind bytes (lookup i conns) else lookup i conns)
    by_name true o e f =
        ap (sent_to env kind bytes) (sym f ∙ ap (λ k. lookup k conns) ((text_eq_iff c i).0 e))
    by_name false o e f = refl

    same :
        (b : Bool)
        → text_eq c i ≡ b
        → lookup c conns ≡ none
        → lookup i conns ≡ (if b then none else lookup i conns)
    same true e f = ap (λ k. lookup k conns) (sym ((text_eq_iff c i).0 e)) ∙ f
    same false e f = refl

    by_found :
        (o : Option Conn)
        → lookup c conns ≡ o
        → lookup i (write_found env kind bytes c o conns)
          ≡ (if text_eq c i then sent_to env kind bytes (lookup i conns) else lookup i conns)
    by_found none e = same (text_eq c i) refl e ∙ by_name (text_eq c i) none refl e
    by_found (some conn) e =
        lookup-insert c i (write_message env kind bytes conn).1 conns
        ∙ by_name (text_eq c i) (some conn) refl e

write_each-lookup :
    (env : Env) (kind : ℕ) (bytes : List ℕ) (cs : ConnSet) (i : Text) (conns : List (Text × Conn))
    → IsDistinct cs
    → lookup i (write_each env kind bytes cs conns)
      ≡ (if is_in (lookup i cs) then sent_to env kind bytes (lookup i conns) else lookup i conns)
unfolding write_each lookup text_eq
write_each-lookup env kind bytes [] i conns d = refl
write_each-lookup env kind bytes ((c, u) ∷ cs) i conns (once, d) =
    let conns' = write_found env kind bytes c (lookup c conns) conns in
    write_each-lookup env kind bytes cs i conns' d
    ∙ by_name (text_eq c i) refl (lookup i conns') (write_found-lookup env kind bytes c i conns)
  where
    by_name :
        (b : Bool)
        → text_eq c i ≡ b
        → (o : Option Conn)
        → o ≡ (if b then sent_to env kind bytes (lookup i conns) else lookup i conns)
        → (if is_in (lookup i cs) then sent_to env kind bytes o else o) ≡ (
            if is_in (if b then some u else lookup i cs)
            then sent_to env kind bytes (lookup i conns)
            else lookup i conns)
    by_name true same o e =
        ap (λ k. if is_in k then sent_to env kind bytes o else o)
          (ap (λ k. lookup k cs) (sym ((text_eq_iff c i).0 same)) ∙ once)
        ∙ e
    by_name false other o e =
        ap (λ k. if is_in (lookup i cs) then sent_to env kind bytes k else k) e

-- A broadcast writes its message once to the connection of each member of the room, and to no
-- other connection.
pub broadcast_room-lookup :
    (env : Env) (room : Text) (kind : ℕ) (bytes : List ℕ) (rooms : RoomMap)
    (conns : List (Text × Conn)) (i : Text)
    → AllOnce rooms
    → lookup i (broadcast_room env room kind bytes rooms conns)
      ≡ (if member rooms room i then sent_to env kind bytes (lookup i conns) else lookup i conns)
unfolding broadcast_room
broadcast_room-lookup env room kind bytes rooms conns i once =
    write_each-lookup env kind bytes (conns_of room rooms) i conns (once room)

-- The maps that joins and leaves give have each connection once.
pub changes-AllOnce :
    (xs : List Change) (rooms : RoomMap) → AllOnce rooms → AllOnce (changes xs rooms)
unfolding conns_of enter_room quit_room text_eq
changes-AllOnce [] rooms once = once
changes-AllOnce (x ∷ xs) rooms once = changes-AllOnce xs (change x rooms) (one x)
  where
    written : (name : Text) (m : ConnSet) → IsDistinct m → AllOnce (insert name m rooms)
    written name m d room = by_name (text_eq name room) (lookup-insert name room m rooms)
      where
        by_name :
            (b : Bool)
            → lookup room (insert name m rooms) ≡ (if b then some m else lookup room rooms)
            → IsDistinct (or_nil (lookup room (insert name m rooms)))
        by_name true e = subst (λ o. IsDistinct (or_nil o)) (sym e) d
        by_name false e = subst (λ o. IsDistinct (or_nil o)) (sym e) (once room)

    erased : (name : Text) (rs : RoomMap) → AllOnce rs → AllOnce (erase name rs)
    erased name rs all room = by_name (text_eq name room) (lookup-erase name room rs)
      where
        by_name :
            (b : Bool)
            → lookup room (erase name rs) ≡ (if b then none else lookup room rs)
            → IsDistinct (or_nil (lookup room (erase name rs)))
        by_name true e = subst (λ o. IsDistinct (or_nil o)) (sym e) tt
        by_name false e = subst (λ o. IsDistinct (or_nil o)) (sym e) (all room)

    quit :
        (name who : Text) (o : Option ConnSet)
        → lookup name rooms ≡ o
        → AllOnce (take_conn name who o rooms)
    quit name who none e = once
    quit name who (some m) e =
        let all =
          written name (erase who m)
            (erase-IsDistinct who m (subst (λ o. IsDistinct (or_nil o)) e (once name))) in
        by_empty (length (erase who m) == 0) all (erased name (insert name (erase who m) rooms) all)
      where
        by_empty :
            (b : Bool)
            → AllOnce (insert name (erase who m) rooms)
            → AllOnce (erase name (insert name (erase who m) rooms))
            → AllOnce (
                if b
                then erase name (insert name (erase who m) rooms)
                else insert name (erase who m) rooms)
        by_empty true h k = k
        by_empty false h k = h

    one : (x : Change) → AllOnce (change x rooms)
    one (enters name who) =
        written name (insert who tt (conns_of name rooms))
          (insert-IsDistinct who (conns_of name rooms) (once name))
    one (quits name who) = quit name who (lookup name rooms) refl

-- A broadcast of a server that has begun without rooms writes its message once to each connection
-- whose last call for the room was a join, and to no other connection.
pub broadcast_room-changes :
    (env : Env) (xs : List Change) (room : Text) (kind : ℕ) (bytes : List ℕ)
    (conns : List (Text × Conn)) (i : Text)
    → lookup i (broadcast_room env room kind bytes (changes xs []) conns) ≡ (
        if is_listed xs room i false
        then sent_to env kind bytes (lookup i conns)
        else lookup i conns)
unfolding conns_of lookup
broadcast_room-changes env xs room kind bytes conns i =
    broadcast_room-lookup env room kind bytes (changes xs []) conns i
      (changes-AllOnce xs [] (λ r. tt))
    ∙ ap (λ b. if b then sent_to env kind bytes (lookup i conns) else lookup i conns)
        (member-changes xs [] room i)
