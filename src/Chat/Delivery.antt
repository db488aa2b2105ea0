-- ===== src/Chat/Delivery.antt =====
-- Who a broadcast is written to.
use sio.Base.Names.{Names, is_in, is_in-if, IsDistinct}
use sio.Base.{
  ℕ, ◌≡◌, refl, ap, sym, ◌∙◌, Bool, true, false, ◌&&◌, not, if◌then◌else◌, List, [], ◌∷◌, Option,
  none, some, arith,
}
use sio.Base.Text.{Text, text_eq, text_eq_iff, text_key}
use sio.Base.Dict.{lookup, lookup-insert}
use sio.Websocket.Types.{Conn, Result, ok, err, stuck}
use sio.Websocket.Message.{write_text}
use sio.Chat.Types.{ChatMessage}
use sio.Chat.Platform.{Platform}
use sio.Chat.State.{
  Client, Room, Server, after_write, deliver_to, deliver, deliver_all, broadcast_encoded,
  broadcast_to_room,
}
use sio.Chat.Sound.{occupies, occupied}
use sio.Chat.Quiet.{Holds, deliver-Holds}

module _ {D : Type 0} (p : Platform D) where
  -- A client object whose connection has taken a text message.
  abbrev pub written : List ℕ → Option Client → Option Client
  written bytes none = none
  written bytes (some c) = some (record c { conn = (write_text p.net bytes c.conn).1 })

  pub deliver-objects :
      (bytes : List ℕ) (id i : Text) (s : Server D)
      → Holds s
      → lookup i (deliver p bytes id s).objects
        ≡ (if text_eq id i then written bytes (lookup i s.objects) else lookup i s.objects)
  unfolding deliver text_eq
  deliver-objects bytes id i s w = by_client (lookup id s.objects) refl
    where
      after :
          (c : Client) (a : Result (Unit {0}) × Conn)
          → lookup i (after_write c a s).objects
            ≡ (if text_eq c.id i then some (record c { conn = a.1 }) else lookup i s.objects)
      after c (ok u, conn') = lookup-insert c.id i (record c { conn = conn' }) s.objects
      after c (err x, conn') = lookup-insert c.id i (record c { conn = conn' }) s.objects
      after c (stuck, conn') = lookup-insert c.id i (record c { conn = conn' }) s.objects

      by_name_none :
          (b : Bool)
          → text_eq id i ≡ b
          → lookup id s.objects ≡ none
          → lookup i s.objects
            ≡ (if b then written bytes (lookup i s.objects) else lookup i s.objects)
      by_name_none true same e = here ∙ sym (ap (written bytes) here)
        where
          here : lookup i s.objects ≡ none
          here = sym (ap (λ k. lookup k s.objects) ((text_eq_iff id i).0 same)) ∙ e
      by_name_none false other e = refl

      by_name :
          (c : Client) (b : Bool)
          → text_eq id i ≡ b
          → lookup id s.objects ≡ some c
          → (if b
              then some (record c { conn = (write_text p.net bytes c.conn).1 })
              else lookup i s.objects)
            ≡ (if b then written bytes (lookup i s.objects) else lookup i s.objects)
      by_name c true same e =
          sym (
            ap (written bytes) (sym (ap (λ k. lookup k s.objects) ((text_eq_iff id i).0 same)) ∙ e))
      by_name c false other e = refl

      by_client :
          (o : Option Client)
          → lookup id s.objects ≡ o
          → lookup i (deliver_to p bytes o s).objects
            ≡ (if text_eq id i then written bytes (lookup i s.objects) else lookup i s.objects)
      by_client none e = by_name_none (text_eq id i) refl e
      by_client (some c) e =
          after c (write_text p.net bytes c.conn)
          ∙ ap
              (λ k.
                if text_eq k i
                then some (record c { conn = (write_text p.net bytes c.conn).1 })
                else lookup i s.objects)
              (w.keyed id c e)
          ∙ by_name c (text_eq id i) refl e

  -- One name of the room's, and those behind it.
  both :
      (bytes : List ℕ) (b q except : Bool) (x y : Option Client)
      → y ≡ (if b && not except then written bytes x else x)
      → (b ≡ true → q ≡ false)
      → (if q && not except then written bytes y else y)
        ≡ (if (if b then true else q) && not except then written bytes x else x)
  both bytes true q true x y e once = ground (arith)
  both bytes true q false x y e once =
      ap (λ k. if k && true then written bytes y else y) (once refl) ∙ e
  both bytes false q except x y e once = ap (λ z. if q && not except then written bytes z else z) e

  deliver_one-objects :
      (bytes : List ℕ) (except id i : Text) (s : Server D)
      → Holds s
      → lookup i (if text_eq id except then s else deliver p bytes id s).objects ≡ (
          if text_eq id i && not (text_eq i except)
          then written bytes (lookup i s.objects)
          else lookup i s.objects)
  unfolding text_eq
  deliver_one-objects bytes except id i s w = by_names (text_eq id except) refl
    where
      is_except : (b : Bool) → text_eq id except ≡ b → text_eq id i ≡ true → text_eq i except ≡ b
      is_except b e same = ap (λ k. text_eq k except) (sym ((text_eq_iff id i).0 same)) ∙ e

      skipped :
          (b c : Bool)
          → (b ≡ true → c ≡ true)
          → lookup i s.objects
            ≡ (if b && not c then written bytes (lookup i s.objects) else lookup i s.objects)
      skipped true c h =
          ap (λ k. if not k then written bytes (lookup i s.objects) else lookup i s.objects)
            (sym (h refl))
      skipped false c h = refl

      told :
          (b c : Bool)
          → (b ≡ true → c ≡ false)
          → (if b then written bytes (lookup i s.objects) else lookup i s.objects)
            ≡ (if b && not c then written bytes (lookup i s.objects) else lookup i s.objects)
      told true c h =
          ap (λ k. if not k then written bytes (lookup i s.objects) else lookup i s.objects)
            (sym (h refl))
      told false c h = refl

      by_names :
          (b : Bool)
          → text_eq id except ≡ b
          → lookup i (if b then s else deliver p bytes id s).objects ≡ (
              if text_eq id i && not (text_eq i except)
              then written bytes (lookup i s.objects)
              else lookup i s.objects)
      by_names true e = skipped (text_eq id i) (text_eq i except) (is_except true e)
      by_names false e =
          deliver-objects bytes id i s w
          ∙ told (text_eq id i) (text_eq i except) (is_except false e)

  deliver_all-objects :
      (bytes : List ℕ) (except : Text) (ids : Names) (i : Text) (s : Server D)
      → Holds s
      → IsDistinct ids
      → lookup i (deliver_all p bytes except ids s).objects ≡ (
          if is_in (lookup i ids) && not (text_eq i except)
          then written bytes (lookup i s.objects)
          else lookup i s.objects)
  unfolding deliver_all lookup text_eq
  deliver_all-objects bytes except [] i s w d = refl
  deliver_all-objects bytes except ((id, u) ∷ ids) i s w (once, d) =
      deliver_all-objects bytes except ids i s1 (by_except (text_eq id except)) d
      ∙ both bytes (text_eq id i) (is_in (lookup i ids)) (text_eq i except) (lookup i s.objects)
          (lookup i s1.objects) (deliver_one-objects bytes except id i s w)
          (once_only (text_eq id i) refl)
      ∙ ap
          (λ k.
            if k && not (text_eq i except)
            then written bytes (lookup i s.objects)
            else lookup i s.objects)
          (sym (is_in-if (text_eq id i) (some u) (lookup i ids)))
    where
      s1 : Server D
      s1 = if text_eq id except then s else deliver p bytes id s

      by_except : (b : Bool) → Holds (if b then s else deliver p bytes id s)
      by_except true = w
      by_except false = deliver-Holds p bytes id s w

      once_only : (b : Bool) → text_eq id i ≡ b → b ≡ true → is_in (lookup i ids) ≡ false
      once_only true same h =
          ap is_in (ap (λ k. lookup k ids) (sym ((text_eq_iff id i).0 same)) ∙ once)
      once_only false other h = absurd cc

  -- Where the invariant holds, a message to a room that the server has, and that can be encoded,
  -- is written to the connection of every client of the room but the excluded one, once, and to no
  -- other connection; the objects are else as they were.
  pub broadcast_to_room-objects :
      (room : Text) (r : Room) (msg : ChatMessage) (bytes : List ℕ) (except i : Text) (s : Server D)
      → Holds s
      → lookup room s.rooms ≡ some r
      → p.json.encode msg ≡ some bytes
      → lookup i (broadcast_to_room p room msg except s).objects ≡ (
          if occupies s.rooms room i && not (text_eq i except)
          then written bytes (lookup i s.objects)
          else lookup i s.objects)
  unfolding broadcast_to_room
  broadcast_to_room-objects room r msg bytes except i s w er eb =
      ap (λ o. lookup i (broadcast_encoded p o (lookup room s.rooms) except s).objects) eb
      ∙ ap (λ o. lookup i (broadcast_encoded p (some bytes) o except s).objects) er
      ∙ deliver_all-objects bytes except r.clients i s w (w.distinct room r er)
      ∙ ap
          (λ o.
            if occupied i o && not (text_eq i except)
            then written bytes (lookup i s.objects)
            else lookup i s.objects)
          (sym er)
