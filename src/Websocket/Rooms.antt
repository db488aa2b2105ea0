-- ===== src/Websocket/Rooms.antt =====
-- websocket/websocket.go: the rooms of Server. A *Conn is a name, under which `conns` has the
-- connection.
pub mod Members
pub mod Broadcast
mod Examples
use sio.Base.{ℕ, ◌==◌, Bool, true, false, if◌then◌else◌, List, [], ◌∷◌, Option, none, some, length}
use sio.Base.Text.{Text, text_key}
use sio.Base.Dict.{lookup, insert, erase}
use sio.Websocket.Types.{Conn, Env}
use sio.Websocket.Message.{write_message}

abbrev pub ConnSet : Type 0
ConnSet = List (Text × Unit {0})

abbrev pub RoomMap : Type 0
RoomMap = List (Text × ConnSet)

-- Reading a map gives nil for a missing key, over which a range does nothing.
abbrev pub or_nil : Option ConnSet → ConnSet
or_nil none = []
or_nil (some m) = m

unfoldable pub conns_of : Text → RoomMap → ConnSet
conns_of room rooms = or_nil (lookup room rooms)

unfoldable pub enter_room : Text → Text → RoomMap → RoomMap
enter_room room c rooms = insert room (insert c tt (conns_of room rooms)) rooms

abbrev pub take_conn : Text → Text → Option ConnSet → RoomMap → RoomMap
take_conn room c none rooms = rooms
take_conn room c (some m) rooms =
    let rooms' = insert room (erase c m) rooms in
    if length (erase c m) == 0 then erase room rooms' else rooms'

unfoldable pub quit_room : Text → Text → RoomMap → RoomMap
quit_room room c rooms = take_conn room c (lookup room rooms) rooms

abbrev pub write_found :
    Env → ℕ → List ℕ → Text → Option Conn → List (Text × Conn) → List (Text × Conn)
write_found env kind bytes c none conns = conns
write_found env kind bytes c (some conn) conns =
    insert c (write_message env kind bytes conn).1 conns

-- What `WriteMessage` returns is not looked at.
unfoldable pub write_each : Env → ℕ → List ℕ → ConnSet → List (Text × Conn) → List (Text × Conn)
write_each env kind bytes [] conns = conns
write_each env kind bytes ((c, u) ∷ cs) conns =
    write_each env kind bytes cs (write_found env kind bytes c (lookup c conns) conns)

unfoldable pub broadcast_room :
    Env → Text → ℕ → List ℕ → RoomMap → List (Text × Conn) → List (Text × Conn)
broadcast_room env room kind bytes rooms conns =
    write_each env kind bytes (conns_of room rooms) conns
