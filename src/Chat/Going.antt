-- ===== src/Chat/Going.antt =====
-- Clients that go keep the invariant, and nothing of them stays behind.
use sio.Base.{
  some_inj, ℕ, ◌≡◌, refl, ap, sym, ◌∙◌, Bool, true, false, ◌&&◌, if◌then◌else◌, if-true, List, [],
  ◌∷◌, map, Option, none, some, arith,
}
use sio.Base.Text.{Text, codes, text_eq, text_eq_iff, text_key}
use sio.Base.Dict.{lookup, erase, lookup-erase}
use sio.Chat.Types.{user_left}
use sio.Chat.Platform.{Platform}
use sio.Chat.State.{Client, Room, Server, in_room, present, broadcast_to_room}
use sio.Chat.Rooms.{mentions, take_out, presence_message}
use sio.Chat.Sessions.{leave_rooms, drop_typing, handle_client_disconnect, run_for, run_leaving}
use sio.Chat.Distinct.{take_out-AllDistinct}
use sio.Chat.Sound.{IsSound, knows, known, occupies, occupies-take_out, same_place}
use sio.Chat.Quiet.{Holds, broadcast-Holds, broadcast-rooms}

lookup-mentions :
    (m : List (Text × Bool)) (room : Text)
    → present (lookup room m) ≡ true
    → mentions (map (λ e. e.0) m) room ≡ true
unfolding lookup mentions text_eq
lookup-mentions [] room h = absurd (impossible h)
  where
    impossible : false ≡ true → ⊥
    impossible h = cc
lookup-mentions ((id, b) ∷ m) room h = by_name (text_eq id room) (lookup-mentions m room) h
  where
    by_name :
        (q : Bool)
        → (present (lookup room m) ≡ true → mentions (map (λ e. e.0) m) room ≡ true)
        → present (if q then some b else lookup room m) ≡ true
        → (if q then true else mentions (map (λ e. e.0) m) room) ≡ true
    by_name true rest h = refl
    by_name false rest h = rest h

-- No entry of a client is left in the typing map.
drop_typing-lem :
    (client room : Text) (m : List (Text × List (Text × ℕ))) (ts : List (Text × ℕ))
    → lookup room (drop_typing client m) ≡ some ts
    → lookup client ts ≡ none
unfolding drop_typing lookup text_eq
drop_typing-lem client room [] ts e = absurd (nothing e)
  where
    nothing : none ≡ some ts → ⊥
    nothing e = cc
drop_typing-lem client room ((name, us) ∷ m) ts e =
    by_name (text_eq name room) (drop_typing-lem client room m ts) e
  where
    gone : (b : Bool) → text_eq client client ≡ b → (if b then none else lookup client us) ≡ none
    gone true h = refl
    gone false h = absurd (differs (sym ((text_eq_iff client client).1 refl) ∙ h))
      where
        differs : true ≡ false → ⊥
        differs q = cc

    by_name :
        (b : Bool)
        → (lookup room (drop_typing client m) ≡ some ts → lookup client ts ≡ none)
        → (if b then some (erase client us) else lookup room (drop_typing client m)) ≡ some ts
        → lookup client ts ≡ none
    by_name true rest q =
        ap (lookup client) (sym (some_inj q))
        ∙ (lookup-erase client client us ∙ gone (text_eq client client) refl)
    by_name false rest q = rest q

module _ {D : Type 0} (p : Platform D) where
  taken-Holds :
      (id client : Text) (s : Server D)
      → Holds s
      → Holds (take_out p id client (lookup id s.rooms) s)
  taken-Holds id client s w = by_found (lookup id s.rooms) sound
    where
      by_place :
          (room i : Text) (b : Bool)
          → (if b then false else occupies s.rooms room i) ≡ true
          → knows s.objects room i ≡ true
      by_place room i true h = absurd cc
      by_place room i false h = w.backed room i h

      sound : IsSound s.objects (take_out p id client (lookup id s.rooms) s).rooms
      sound = record {
        keyed = w.keyed;
        backed = λ room i h.
            by_place room i (same_place id room client i)
              (sym (occupies-take_out p id client (lookup id s.rooms) s room i refl) ∙ h);
        distinct = take_out-AllDistinct p id client (lookup id s.rooms) s refl w.distinct;
      }

      by_found :
          (o : Option Room)
          → IsSound s.objects (take_out p id client o s).rooms
          → Holds (take_out p id client o s)
      by_found none h = h
      by_found (some r) h = h

  leave_rooms-Holds :
      (now : ℕ) (c : Client) (ids : List Text) (s : Server D)
      → Holds s
      → Holds (leave_rooms p now c ids s)
  unfolding leave_rooms
  leave_rooms-Holds now c [] s w = w
  leave_rooms-Holds now c (id ∷ ids) s w =
      leave_rooms-Holds now c ids _ (taken-Holds id c.id _ (broadcast-Holds p id _ c.id s w))

  -- A client that leaves some rooms is in none of those, and all else is as it was.
  occupies-leave_rooms :
      (now : ℕ) (c : Client) (ids : List Text) (s : Server D) (room i : Text)
      → occupies (leave_rooms p now c ids s).rooms room i
        ≡ (if mentions ids room && text_eq c.id i then false else occupies s.rooms room i)
  unfolding leave_rooms mentions
  occupies-leave_rooms now c [] s room i = refl
  occupies-leave_rooms now c (id ∷ ids) s room i =
      let told =
        broadcast_to_room p id (presence_message now user_left id c (codes "offline")) c.id s in
      ground (
        arith,
        occupies-leave_rooms now c ids (take_out p id c.id (lookup id told.rooms) told) room i,
        occupies-take_out p id c.id (lookup id told.rooms) told room i refl,
        ap (λ rs. occupies rs room i)
            (broadcast-rooms p id (presence_message now user_left id c (codes "offline")) c.id s),
      )

  pub disconnect-Holds :
      (now : ℕ) (c : Client) (s : Server D) → Holds s → Holds (handle_client_disconnect p now c s)
  unfolding handle_client_disconnect
  disconnect-Holds now c s w = leave_rooms-Holds now c (map (λ e. e.0) c.rooms) s w

  pub run_leaving-Holds : (now : ℕ) (s : Server D) → Holds s → Holds (run_leaving p now s)
  unfolding run_leaving
  run_leaving-Holds now s w = by_first s.leaving
    where
      by_object : (o : Option Client) (s : Server D) → Holds s → Holds (run_for p now o s)
      by_object none s w = w
      by_object (some c) s w = disconnect-Holds now c s w

      by_first :
          (l : List Text)
          → Holds (elim l as (λ l. Server D) [
            | [] ↦ s
            | id ∷ ids ↦ run_for p now (lookup id s.objects) (record s { leaving = ids })
          ])
      by_first [] = w
      by_first (id ∷ ids) = by_object (lookup id s.objects) (record s { leaving = ids }) w

  -- Where the invariant holds, when a client that the server has an object of has gone, no room
  -- has it, no limiter is kept for it, it is not among the clients, and it is typing nowhere; the
  -- other clients are in the rooms where they were.
  pub handle_client_disconnect-gone :
      (now : ℕ) (c : Client) (s : Server D) (room : Text)
      → Holds s
      → lookup c.id s.objects ≡ some c
      → let s' = handle_client_disconnect p now c s in
        (occupies s'.rooms room c.id ≡ false)
        × (lookup c.id s'.clients ≡ none)
        × (lookup c.id s'.rate_limiters ≡ none)
        × ((ts : List (Text × ℕ)) → lookup room s'.typing_clients ≡ some ts → lookup c.id ts ≡ none)
        × ((i : Text) → text_eq c.id i ≡ false → occupies s'.rooms room i ≡ occupies s.rooms room i)
  unfolding handle_client_disconnect in_room text_eq
  handle_client_disconnect-gone now c s room w e = (
    occupies-leave_rooms now c rooms s room c.id
        ∙ by_room (mentions rooms room) refl (occupies s.rooms room c.id) refl,
    erased (leave_rooms p now c rooms s).clients,
    erased (leave_rooms p now c rooms s).rate_limiters,
    drop_typing-lem c.id room (leave_rooms p now c rooms s).typing_clients,
    λ i other. occupies-leave_rooms now c rooms s room i ∙ ground (arith),
  )
    where
      rooms : List Text
      rooms = map (λ e. e.0) c.rooms

      same : text_eq c.id c.id ≡ true
      same = (text_eq_iff c.id c.id).1 refl

      erased : {A : Type 0} (m : List (Text × A)) → lookup c.id (erase c.id m) ≡ none
      erased m = lookup-erase c.id c.id m ∙ if-true (text_eq c.id c.id) none (lookup c.id m) same

      by_room :
          (b : Bool)
          → mentions rooms room ≡ b
          → (o : Bool) → occupies s.rooms room c.id ≡ o
          → (if b && text_eq c.id c.id then false else o) ≡ false
      by_room true h o q = if-true (text_eq c.id c.id) false o same
      by_room false h false q = refl
      by_room false h true q = absurd (
          differs (
            sym (lookup-mentions c.rooms room (sym (ap (known room) e) ∙ w.backed room c.id q))
            ∙ h))
        where
          differs : true ≡ false → ⊥
          differs x = cc
