-- ===== src/Chat/Sound.antt =====
-- The invariant that ties the rooms of the server to the rooms of its clients.
use sio.Base.Names.{is_in, nothing-in}
use sio.Base.{
  some_inj, ◌≡◌, refl, ap, sym, ◌∙◌, Bool, true, false, ◌&&◌, if◌then◌else◌, List, Option, none,
  some, arith,
}
use sio.Base.Text.{Text, text_eq, text_eq_iff, text_key}
use sio.Base.Dict.{lookup, insert, erase, lookup-insert, lookup-erase}
use sio.Chat.State.{Client, Room, Server, in_room}
use sio.Chat.Platform.{Platform}
use sio.Chat.Rooms.{enter, take_out}
use sio.Chat.Distinct.{AllDistinct}

abbrev pub Objects : Type 0
Objects = List (Text × Client)

abbrev pub Rooms : Type 0
Rooms = List (Text × Room)

-- Whether a client object says that it is in a room, and whether the server has it there.
abbrev pub known : Text → Option Client → Bool
known room none = false
known room (some c) = in_room room c

abbrev pub knows : Objects → Text → Text → Bool
knows os room id = known room (lookup id os)

abbrev pub occupied : Text → Option Room → Bool
occupied id none = false
occupied id (some r) = is_in (lookup id r.clients)

abbrev pub occupies : Rooms → Text → Text → Bool
occupies rs room id = occupied id (lookup room rs)

-- A client object stands under its own id, whoever a room has knows of it, and a room has no one
-- twice.
pub record IsSound (os : Objects) (rs : Rooms) : Type 0 where
  pub keyed : (id : Text) (c : Client) → lookup id os ≡ some c → c.id ≡ id
  pub backed : (room id : Text) → occupies rs room id ≡ true → knows os room id ≡ true
  pub distinct : AllDistinct rs

pub put-keyed :
    (c : Client) (os : Objects)
    → ((id : Text) (d : Client) → lookup id os ≡ some d → d.id ≡ id)
    → (id : Text) (d : Client) → lookup id (insert c.id c os) ≡ some d
    → d.id ≡ id
unfolding text_eq
put-keyed c os k id d e = by_id (text_eq c.id id) refl (sym (lookup-insert c.id id c os) ∙ e)
  where
    by_id :
        (b : Bool) → text_eq c.id id ≡ b → (if b then some c else lookup id os) ≡ some d → d.id ≡ id
    by_id true same q = ap (λ (x : Client). x.id) (sym (some_inj q)) ∙ (text_eq_iff c.id id).0 same
    by_id false same q = k id d q

knows-put :
    (c : Client) (os : Objects) (room id : Text)
    → knows os room id ≡ true
    → (knows os room c.id ≡ true → in_room room c ≡ true)
    → knows (insert c.id c os) room id ≡ true
unfolding text_eq
knows-put c os room id h keeps =
    ap (known room) (lookup-insert c.id id c os) ∙ by_id (text_eq c.id id) refl
  where
    by_id :
        (b : Bool) → text_eq c.id id ≡ b → known room (if b then some c else lookup id os) ≡ true
    by_id true same = keeps (ap (knows os room) ((text_eq_iff c.id id).0 same) ∙ h)
    by_id false same = h

-- A changed object that is in all rooms that it was in.
pub put-IsSound :
    (c : Client) (os : Objects) (rs : Rooms)
    → IsSound os rs
    → ((room : Text) → knows os room c.id ≡ true → in_room room c ≡ true)
    → IsSound (insert c.id c os) rs
put-IsSound c os rs w keeps = record {
  keyed = put-keyed c os w.keyed;
  backed = λ room id h. knows-put c os room id (w.backed room id h) (keeps room);
  distinct = w.distinct;
}

-- Writing a room.
pub occupies-insert :
    (name room id : Text) (r : Room) (rs : Rooms)
    → occupies (insert name r rs) room id
      ≡ (if text_eq name room then is_in (lookup id r.clients) else occupies rs room id)
unfolding text_eq
occupies-insert name room id r rs =
    ap (occupied id) (lookup-insert name room r rs) ∙ by_name (text_eq name room)
  where
    by_name :
        (b : Bool)
        → occupied id (if b then some r else lookup room rs)
          ≡ (if b then is_in (lookup id r.clients) else occupies rs room id)
    by_name true = refl
    by_name false = refl

occupies-erase :
    (name room id : Text) (rs : Rooms)
    → occupies (erase name rs) room id ≡ (if text_eq name room then false else occupies rs room id)
unfolding text_eq
occupies-erase name room id rs =
    ap (occupied id) (lookup-erase name room rs) ∙ by_name (text_eq name room)
  where
    by_name :
        (b : Bool)
        → occupied id (if b then none else lookup room rs)
          ≡ (if b then false else occupies rs room id)
    by_name true = refl
    by_name false = refl

by_room :
    (name room id : Text) (rs : Rooms) (o : Option Room)
    → lookup name rs ≡ o
    → text_eq name room ≡ true
    → occupies rs room id ≡ occupied id o
by_room name room id rs o e same =
    ap (λ r. occupied id (lookup r rs)) (sym ((text_eq_iff name room).0 same)) ∙ ap (occupied id) e

-- A room and a client at once.
abbrev pub same_place : Text → Text → Text → Text → Bool
same_place name room i id = text_eq name room && text_eq i id

module _ {D : Type 0} (p : Platform D) where
  pub occupies-enter :
      (name client : Text) (r : Room) (s : Server D) (room id : Text)
      → lookup name s.rooms ≡ some r
      → occupies (enter p name client (some r) s).rooms room id
        ≡ (if same_place name room client id then true else occupies s.rooms room id)
  unfolding text_eq
  occupies-enter name client r s room id e = ground (
    arith,
    occupies-insert name room id (record r { clients = insert client tt r.clients }) s.rooms,
    by_room name room id s.rooms (some r) e,
    lookup-insert client id tt r.clients,
  )

  pub occupies-take_out :
      (name client : Text) (o : Option Room) (s : Server D) (room id : Text)
      → lookup name s.rooms ≡ o
      → occupies (take_out p name client o s).rooms room id
        ≡ (if same_place name room client id then false else occupies s.rooms room id)
  unfolding text_eq
  occupies-take_out name client none s room id e =
      ground (arith, by_room name room id s.rooms none e)
  occupies-take_out name client (some r) s room id e =
      let left = erase client r.clients in
      let room' = record r { clients = left } in
      ground (
        arith,
        occupies-insert name room id room' s.rooms,
        occupies-erase name room id (insert name room' s.rooms),
        by_room name room id s.rooms (some r) e,
        lookup-erase client id r.clients,
        nothing-in left id,
      )
