-- ===== src/Chat/Distinct.antt =====
-- A room holds a client once.
use sio.Base.Names.{IsDistinct, insert-IsDistinct, erase-IsDistinct}
use sio.Base.{
  some_inj, ◌≡◌, ◌∙◌, sym, Bool, true, false, ◌&&◌, List, Option, none, some, if◌then◌else◌, length,
  ◌==◌, not,
}
use mathlib.Core.Path.{subst}
use sio.Base.Text.{Text, text_eq, text_key}
use sio.Base.Dict.{lookup, insert, erase, lookup-insert, lookup-erase}
use sio.Chat.State.{Room, Server}
use sio.Chat.Types.{public_room}
use sio.Chat.Platform.{Platform}
use sio.Chat.Rooms.{enter, take_out}

abbrev pub AllDistinct : List (Text × Room) → Type 0
AllDistinct rs = (room : Text) (r : Room) → lookup room rs ≡ some r → IsDistinct r.clients

pub insert-AllDistinct :
    (name : Text) (r : Room) (rs : List (Text × Room))
    → IsDistinct r.clients
    → AllDistinct rs
    → AllDistinct (insert name r rs)
unfolding text_eq
insert-AllDistinct name r rs d all room r' e =
    by_name (text_eq name room) (sym (lookup-insert name room r rs) ∙ e)
  where
    by_name : (b : Bool) → (if b then some r else lookup room rs) ≡ some r' → IsDistinct r'.clients
    by_name true q = subst (λ (x : Room). IsDistinct x.clients) (some_inj q) d
    by_name false q = all room r' q

erase-AllDistinct :
    (name : Text) (rs : List (Text × Room)) → AllDistinct rs → AllDistinct (erase name rs)
unfolding text_eq
erase-AllDistinct name rs all room r' e =
    by_name (text_eq name room) (sym (lookup-erase name room rs) ∙ e)
  where
    by_name : (b : Bool) → (if b then none else lookup room rs) ≡ some r' → IsDistinct r'.clients
    by_name true q = absurd cc
    by_name false q = all room r' q

module _ {D : Type 0} (p : Platform D) where
  pub enter-AllDistinct :
      (id client : Text) (o : Option Room) (s : Server D)
      → lookup id s.rooms ≡ o
      → AllDistinct s.rooms
      → AllDistinct (enter p id client o s).rooms
  enter-AllDistinct id client none s e all = all
  enter-AllDistinct id client (some r) s e all =
      insert-AllDistinct id (record r { clients = insert client tt r.clients }) s.rooms
        (insert-IsDistinct client r.clients (all id r e)) all

  pub take_out-AllDistinct :
      (id client : Text) (o : Option Room) (s : Server D)
      → lookup id s.rooms ≡ o
      → AllDistinct s.rooms
      → AllDistinct (take_out p id client o s).rooms
  take_out-AllDistinct id client none s e all = all
  take_out-AllDistinct id client (some r) s e all =
      let left = record r { clients = erase client r.clients } in
      let all' =
        insert-AllDistinct id left s.rooms (erase-IsDistinct client r.clients (all id r e)) all in
      by_empty (length left.clients == 0 && not (text_eq r.room_type public_room)) _ _ all'
        (erase-AllDistinct id (insert id left s.rooms) all')
    where
      by_empty :
          (b : Bool) (rs rs' : List (Text × Room))
          → AllDistinct rs
          → AllDistinct rs'
          → AllDistinct (if b then rs' else rs)
      by_empty true rs rs' h k = k
      by_empty false rs rs' h k = h
