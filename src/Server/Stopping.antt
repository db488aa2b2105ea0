-- ===== src/Server/Stopping.antt =====
-- What the end of the server leaves.
use sio.Base.{
  ◌≡◌, refl, ap, ◌∙◌, sym, Bool, true, false, List, [], ◌∷◌, map, none, some, if◌then◌else◌,
  if-false,
}
use mathlib.Core.Path.{subst}
use sio.Base.Text.{Text, text_eq, text_eq_iff, text_key}
use sio.Base.Dict.{lookup, insert, lookup-insert}
use sio.Hub.{Handle, Hub}
use sio.Hub.Places.{member}
use sio.Hub.Request.{shutdown}
use sio.Socket.{Socket, System, Fate, ask, close}
use sio.Socket.Agreement.{Agrees}
use sio.Socket.Closing.{close_gone}
use sio.Socket.Rejoining.{rejoins}
use sio.Server.{Objects, close_found, close_each, shut_down}
use sio.Server.Quiet.{Same, unchanged, then-Same, IsSmooth, AllQuiet-AllForeign, close-Same}

-- A socket that is not among the hub's any more, and in no room but those that its handler of
-- `OnDisconnect` has joined in the end.
abbrev pub IsGone : Fate → Handle → Hub → Type 0
IsGone fate c h =
    (lookup c.id h.sockets ≡ none)
    × ((room : Text)
        → member h room c.id ≡ (if rejoins room false fate.handler then some c else none))

-- An open socket that the hub agrees with.
pub record IsOpen (h : Handle) (os : Objects) (y : System) : Type 0 where
  pub socket : Socket
  pub found : lookup h.id os ≡ some socket
  pub own : socket.handle ≡ h
  pub not_closed : socket.closed ≡ false
  pub agrees : Agrees socket y.hub

abbrev pub IsApart : Text → List Handle → Type 0
IsApart id [] = Unit {0}
IsApart id (h ∷ hs) = (text_eq id h.id ≡ false) × IsApart id hs

abbrev AllApart : List Handle → Text → Type 0
AllApart [] id = Unit {0}
AllApart (h ∷ hs) id = (text_eq h.id id ≡ false) × AllApart hs id

text_eq_sym : (i j : Text) → text_eq j i ≡ false → text_eq i j ≡ false
text_eq_sym i j e = by_eq (text_eq i j) refl
  where
    by_eq : (b : Bool) → text_eq i j ≡ b → b ≡ false
    by_eq true q = sym ((text_eq_iff j i).1 (sym ((text_eq_iff i j).0 q))) ∙ e
    by_eq false q = refl

turned : (id : Text) (hs : List Handle) → IsApart id hs → AllApart hs id
turned id [] a = tt
turned id (h ∷ hs) (e, es) = (text_eq_sym h.id id e, turned id hs es)

abbrev pub AllOpen : List Handle → Objects × System → Type 0
AllOpen [] w = Unit {0}
AllOpen (h ∷ hs) w = IsOpen h w.0 w.1 × IsApart h.id hs × AllOpen hs w

abbrev pub AllGone : (Text → Fate) → List Handle → Hub → Type 0
AllGone fates [] h = Unit {0}
AllGone fates (c ∷ cs) h = IsGone (fates c.id) c h × AllGone fates cs h

abbrev closed_one : Fate → Handle → Objects × System → Objects × System
closed_one fate h w = close_found fate h.id (lookup h.id w.0) w

-- One round, with the object that it finds.
round :
    (P : Objects × System → Type 0) (fate : Fate) (h : Handle) (w : Objects × System)
    (o : IsOpen h w.0 w.1)
    → P (insert h.id (close fate o.socket w.1).1.0 w.0, (close fate o.socket w.1).1.1)
    → P (closed_one fate h w)
round P fate h w o x = subst (λ s. P (close_found fate h.id s w)) (sym o.found) x

round-IsGone :
    (fate : Fate) (h : Handle) (w : Objects × System)
    → IsSmooth fate
    → IsOpen h w.0 w.1
    → IsGone fate h (closed_one fate h w).1.hub
round-IsGone fate h w (a, b, q) o =
    let gone =
      close_gone fate o.socket w.1 o.not_closed o.agrees
        (AllQuiet-AllForeign o.socket.handle.id fate.handler q) a b in
    round (λ w. IsGone fate h w.1.hub) fate h w o
      (subst (λ (t : Handle). IsGone fate t (close fate o.socket w.1).1.1.hub) o.own
        (gone.2, gone.3))

round-Same :
    (fate : Fate) (h : Handle) (w : Objects × System) (id : Text)
    → IsSmooth fate
    → IsOpen h w.0 w.1
    → text_eq h.id id ≡ false
    → Same id w.1.hub (closed_one fate h w).1.hub
round-Same fate h w id smooth o e =
    round (λ w'. Same id w.1.hub w'.1.hub) fate h w o
      (close-Same fate o.socket w.1 id o.not_closed smooth
        (ap (λ (k : Handle). text_eq k.id id) o.own ∙ e))

round-IsOpen :
    (fate : Fate) (h t : Handle) (w : Objects × System)
    → IsSmooth fate
    → IsOpen h w.0 w.1
    → text_eq h.id t.id ≡ false
    → IsOpen t w.0 w.1
    → IsOpen t (closed_one fate h w).0 (closed_one fate h w).1
unfolding text_eq
round-IsOpen fate h t w smooth o e u =
    round (λ w. IsOpen t w.0 w.1) fate h w o
      (record {
        socket = u.socket;
        found =
            lookup-insert h.id t.id (close fate o.socket w.1).1.0 w.0
            ∙ if-false (text_eq h.id t.id) _ (lookup t.id w.0) e
            ∙ u.found;
        own = u.own;
        not_closed = u.not_closed;
        agrees = λ room. untouched.places room ∙ u.agrees room;
      })
  where
    untouched : Same u.socket.handle.id w.1.hub (close fate o.socket w.1).1.1.hub
    untouched = close-Same fate o.socket w.1 u.socket.handle.id o.not_closed smooth (
        ap (λ (k : Handle). text_eq k.id u.socket.handle.id) o.own
        ∙ ap (λ (k : Handle). text_eq h.id k.id) u.own
        ∙ e)

round-AllOpen :
    (fate : Fate) (h : Handle) (hs : List Handle) (w : Objects × System)
    → IsSmooth fate
    → IsOpen h w.0 w.1
    → IsApart h.id hs
    → AllOpen hs w
    → AllOpen hs (closed_one fate h w)
round-AllOpen fate h [] w smooth o apart all = tt
round-AllOpen fate h (t ∷ hs) w smooth o (e, es) (u, distinct, all) =
    (round-IsOpen fate h t w smooth o e u, distinct, round-AllOpen fate h hs w smooth o es all)

close_each-Same :
    (fates : Text → Fate) (hs : List Handle) (w : Objects × System) (id : Text)
    → ((i : Text) → IsSmooth (fates i))
    → AllOpen hs w
    → AllApart hs id
    → Same id w.1.hub (close_each fates hs w).1.hub
unfolding close_each
close_each-Same fates [] w id smooth all apart = unchanged id w.1.hub
close_each-Same fates (h ∷ hs) w id smooth (o, es, all) (e, apart) =
    let w' = closed_one (fates h.id) h w in
    then-Same id w.1.hub w'.1.hub (close_each fates hs w').1.hub
      (round-Same (fates h.id) h w id (smooth h.id) o e)
      (close_each-Same fates hs w' id smooth
        (round-AllOpen (fates h.id) h hs w (smooth h.id) o es all) apart)

close_each-AllGone :
    (fates : Text → Fate) (hs : List Handle) (w : Objects × System)
    → ((i : Text) → IsSmooth (fates i))
    → AllOpen hs w
    → AllGone fates hs (close_each fates hs w).1.hub
unfolding close_each
close_each-AllGone fates [] w smooth all = tt
close_each-AllGone fates (h ∷ hs) w smooth (o, apart, all) =
    let w' = closed_one (fates h.id) h w in
    let all' = round-AllOpen (fates h.id) h hs w (smooth h.id) o apart all in
    let later = close_each-Same fates hs w' h.id smooth all' (turned h.id hs apart) in
    let gone = round-IsGone (fates h.id) h w (smooth h.id) o in
    (
      (later.connected ∙ gone.0, λ room. later.places room ∙ gone.1 room),
      close_each-AllGone fates hs w' smooth all',
    )

-- A server whose sockets are open, under ids of their own, and in the rooms that they say: where
-- nothing fails outside, Shutdown leaves none of them among the hub's sockets, and each in no room
-- but those that its handler of `OnDisconnect` joins in the end without leaving them again; and it
-- calls the backend's Shutdown exactly where there is a backend. While those handlers run the hub
-- is asked for nothing by others but to send.
pub shut_down-AllGone :
    (fates : Text → Fate) (os : Objects) (y : System)
    → ((i : Text) → IsSmooth (fates i))
    → AllOpen (map (λ e. e.1) y.hub.sockets) (os, ask shutdown y)
    → let (backend, (os', y')) = shut_down fates os y in
      (backend ≡ y.hub.multihome_enabled) × AllGone fates (map (λ e. e.1) y.hub.sockets) y'.hub
unfolding shut_down
shut_down-AllGone fates os y smooth all =
    (refl, close_each-AllGone fates (map (λ e. e.1) y.hub.sockets) (os, ask shutdown y) smooth all)
