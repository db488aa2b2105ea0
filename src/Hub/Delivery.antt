-- ===== src/Hub/Delivery.antt =====
-- Whom a message to a room or to all sockets reaches.
use sio.Base.{
  ℕ, ◌+◌, ◌≡◌, refl, ap, ◌∙◌, Bool, true, false, not, List, [], ◌∷◌, Option, none, some,
  if◌then◌else◌, if-true, sym, All, length, ltb, arith,
}
use sio.Base.Text.{Text, text_eq, text_eq_iff, text_key}
use sio.Base.Dict.{lookup}
use sio.Hub.{
  Handle, Sockets, Hub, Request, Output, RoomMsg, BroadcastMsg, new_hub, slices_contains, receivers,
  emit_all, emit_room, emit_broadcast, listen,
}
use sio.Hub.Places.{found}
use sio.Hub.Members.{in_room, on_server, last_word, settle, member-listen, connected-listen}
use sio.Hub.Keyed.{IsKeyed}
use sio.Hub.Rooms.{listen-IsSound}

-- How often an id is among the receivers.
abbrev pub times : Text → List Handle → ℕ
times id [] = 0
times id (s ∷ ss) = (if text_eq s.id id then 1 else 0) + times id ss

-- Once where a socket is there and its id is not excepted.
abbrev pub once : List Text → Text → Option Handle → ℕ
once except id none = 0
once except id (some s) = if slices_contains except id then 0 else 1

once-none : (except : List Text) (id : Text) (o : Option Handle) → o ≡ none → once except id o ≡ 0
once-none except id none e = refl
once-none except id (some s) e = absurd cc

-- One entry of the map.
times-receivers_step :
    (except : List Text) (s : Handle) (rest : List Handle) (id : Text)
    → times id (
        if ltb 0 (length except)
        then (if not (slices_contains except s.id) then s ∷ rest else rest)
        else s ∷ rest)
      ≡ (if text_eq s.id id then once except s.id (some s) else 0) + times id rest
unfolding slices_contains
times-receivers_step [] s rest id = refl
times-receivers_step (e ∷ es) s rest id =
    by_contains (slices_contains (e ∷ es) s.id) (text_eq s.id id)
  where
    by_contains :
        (b same : Bool)
        → times id
            (if ltb 0 (length (e ∷ es)) then (if not b then s ∷ rest else rest) else s ∷ rest)
          ≡ (if text_eq s.id id then (if b then 0 else 1) else 0) + times id rest
    by_contains b same = ground arith

times-receivers :
    (except : List Text) (m : Sockets) (id : Text)
    → IsKeyed m
    → times id (receivers except m) ≡ once except id (lookup id m)
unfolding receivers lookup text_eq
times-receivers except [] id k = refl
times-receivers except ((i, s) ∷ m) id (own, gone, k) =
    times-receivers_step except s (receivers except m) id
    ∙ by_id (text_eq s.id id) refl (times-receivers except m id k)
  where
    by_id :
        (b : Bool)
        → text_eq s.id id ≡ b
        → times id (receivers except m) ≡ once except id (lookup id m)
        → (if b then once except s.id (some s) else 0) + times id (receivers except m)
          ≡ once except id (lookup id ((i, s) ∷ m))
    by_id true e rest =
        ground (arith, text_eq_iff i id, text_eq_iff s.id id, once-none except id (lookup id m))
    by_id false e rest = ground (arith, text_eq_iff i id, text_eq_iff s.id id)

-- Every receiver is the socket that the map has under its id.
pick-All :
    (P : Handle → Type 0) (b c : Bool) (s : Handle) (rest : List Handle)
    → P s
    → All P rest
    → All P (if b then (if not c then s ∷ rest else rest) else s ∷ rest)
pick-All P true true s rest p all = all
pick-All P true false s rest p all = (p, all)
pick-All P false c s rest p all = (p, all)

clash : {t : Handle} → none ≡ some t → ⊥
clash e = cc

widen-All :
    (i : Text) (s : Handle) (m : Sockets) (ts : List Handle)
    → lookup i m ≡ none
    → All (λ t. lookup t.id m ≡ some t) ts
    → All (λ t. lookup t.id ((i, s) ∷ m) ≡ some t) ts
unfolding lookup text_eq
widen-All i s m [] gone all = tt
widen-All i s m (t ∷ ts) gone (one, all) =
    (by_id (text_eq i t.id) refl, widen-All i s m ts gone all)
  where
    by_id : (b : Bool) → text_eq i t.id ≡ b → (if b then some s else lookup t.id m) ≡ some t
    by_id true e = absurd (clash (sym gone ∙ ap (λ k. lookup k m) ((text_eq_iff i t.id).0 e) ∙ one))
    by_id false e = one

receivers-All :
    (except : List Text) (m : Sockets)
    → IsKeyed m
    → All (λ s. lookup s.id m ≡ some s) (receivers except m)
unfolding receivers lookup text_eq
receivers-All except [] k = tt
receivers-All except ((i, s) ∷ m) (own, gone, k) =
    pick-All (λ t. lookup t.id ((i, s) ∷ m) ≡ some t) (ltb 0 (length except))
      (slices_contains except s.id) s (receivers except m)
      (if-true (text_eq i s.id) (some s) (lookup s.id m) ((text_eq_iff i s.id).1 (sym own)))
      (widen-All i s m (receivers except m) gone (receivers-All except m k))

found-All :
    (except : List Text) (o : Option Sockets)
    → ((m : Sockets) → o ≡ some m → IsKeyed m)
    → All (λ s. found o s.id ≡ some s) (elim o [ some m ↦ receivers except m | none ↦ [] ])
found-All except none k = tt
found-All except (some m) k = receivers-All except m (k m refl)

times-found :
    (except : List Text) (o : Option Sockets) (id : Text)
    → ((m : Sockets) → o ≡ some m → IsKeyed m)
    → times id (elim o [ some m ↦ receivers except m | none ↦ [] ]) ≡ once except id (found o id)
times-found except none id k = refl
times-found except (some m) id k = times-receivers except m id (k m refl)

map-All :
    {P Q : Handle → Type 0} → ((s : Handle) → P s → Q s) → (ss : List Handle) → All P ss → All Q ss
map-All f [] all = tt
map-All f (s ∷ ss) (p, all) = (f s p, map-All f ss all)

-- The sockets that a message to a room goes to.
abbrev audience : Hub → RoomMsg → List Handle
audience h c = elim (lookup c.room_name h.rooms) [ some m ↦ receivers c.room_except m | none ↦ [] ]

emit_room-audience :
    (h : Hub) (c : RoomMsg) → emit_room h c ≡ emit_all c.room_event c.room_data (audience h c)
unfolding emit_room emit_all
emit_room-audience h c = by_found (lookup c.room_name h.rooms)
  where
    by_found :
        (o : Option Sockets)
        → elim o as (λ q. List Output) [
          | some room ↦ emit_all c.room_event c.room_data (receivers c.room_except room)
          | none ↦ []
        ]
          ≡ emit_all c.room_event c.room_data
              (elim o [ some m ↦ receivers c.room_except m | none ↦ [] ])
    by_found none = refl
    by_found (some m) = refl

-- After any sequence of requests, a message to a room is emitted to a list of sockets in which an
-- id stands once if the last request on it and the room is a join and the message does not except
-- it, and not at all otherwise. Each is the socket that joined with the last such request.
pub emit_room-once :
    (rs : List Request) (c : RoomMsg)
    → (targets : List Handle) × (emit_room (listen new_hub rs) c
        ≡ emit_all c.room_event c.room_data targets)
      × All (λ s. settle (last_word (in_room c.room_name s.id) rs) none ≡ some s) targets
      × ((id : Text)
          → times id targets
            ≡ once c.room_except id (settle (last_word (in_room c.room_name id) rs) none))
emit_room-once rs c =
    let h = listen new_hub rs in
    (
      audience h c,
      emit_room-audience h c,
      map-All (λ s e. sym (member-listen rs c.room_name s.id) ∙ e) (audience h c)
          (found-All c.room_except (lookup c.room_name h.rooms)
            (λ m e. ((listen-IsSound rs).kept c.room_name m e).0)),
      λ id.
          times-found c.room_except (lookup c.room_name h.rooms) id
            (λ m e. ((listen-IsSound rs).kept c.room_name m e).0)
          ∙ ap (once c.room_except id) (member-listen rs c.room_name id),
    )

-- After any sequence of requests, a broadcast is emitted to a list of sockets in which an id
-- stands once if the last request on it adds it and the message does not except it, and not at
-- all otherwise. Each is the socket that the last such request added.
pub emit_broadcast-once :
    (rs : List Request) (c : BroadcastMsg)
    → (targets : List Handle) × (emit_broadcast (listen new_hub rs) c
        ≡ emit_all c.event_name c.event_data targets)
      × All (λ s. settle (last_word (on_server s.id) rs) none ≡ some s) targets
      × ((id : Text)
          → times id targets ≡ once c.except id (settle (last_word (on_server id) rs) none))
unfolding emit_broadcast
emit_broadcast-once rs c =
    let h = listen new_hub rs in
    (
      receivers c.except h.sockets,
      refl,
      map-All (λ s e. sym (connected-listen rs s.id) ∙ e) (receivers c.except h.sockets)
          (receivers-All c.except h.sockets (listen-IsSound rs).keyed),
      λ id.
          times-receivers c.except h.sockets id (listen-IsSound rs).keyed
          ∙ ap (once c.except id) (connected-listen rs id),
    )
