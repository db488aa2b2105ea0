-- ===== src/Chat/Dms.antt =====
-- Who may enter a room for two, by the room's id.
use sio.Base.{
  ℕ, ◌==◌, ◌≡◌, refl, ap, sym, ◌∙◌, Bool, true, false, ◌||◌, if◌then◌else◌, List, [], ◌∷◌, ◌++◌,
  some, arith, append_assoc,
}
use sio.Base.Text.{Text, codes, text_eq, text_eq_iff, is_prefix, has_prefix, cons_head, split}
use sio.Chat.Platform.{Platform}
use sio.Chat.State.{Server}
use sio.Chat.Rooms.{mentions, dm_prefix, check_room_permission}
use sio.Chat.Direct.{text_leb, sort_pair, dm_room_id}

-- Whether a byte stands in a text.
unfoldable pub has_byte : ℕ → Text → Bool
has_byte sep [] = false
has_byte sep (c ∷ cs) = let rest = has_byte sep cs in if c == sep then true else rest

abbrev AllFree : ℕ → List Text → Type 0
AllFree sep [] = Unit {0}
AllFree sep (w ∷ ws) = (has_byte sep w ≡ false) × AllFree sep ws

split-AllFree : (sep : ℕ) (t : Text) → AllFree sep (split sep t)
unfolding split cons_head has_byte
split-AllFree sep [] = (refl, tt)
split-AllFree sep (c ∷ cs) = by_sep (c == sep) refl (split sep cs) (split-AllFree sep cs)
  where
    by_sep :
        (b : Bool)
        → (c == sep) ≡ b
        → (ws : List Text) → AllFree sep ws
        → AllFree sep (if b then [] ∷ ws else cons_head c ws)
    by_sep true e ws h = (refl, h)
    by_sep false e [] h = (ap (λ b. if b then true else false) e, tt)
    by_sep false e (w ∷ ws) (h, hs) = (ap (λ b. if b then true else has_byte sep w) e ∙ h, hs)

mentions-AllFree :
    (sep : ℕ) (ws : List Text) (user : Text)
    → AllFree sep ws
    → has_byte sep user ≡ true
    → mentions ws user ≡ false
unfolding mentions
mentions-AllFree sep [] user h e = refl
mentions-AllFree sep (w ∷ ws) user (h, hs) e =
    by_name (text_eq w user) refl (mentions-AllFree sep ws user hs e)
  where
    by_name :
        (b : Bool)
        → text_eq w user ≡ b
        → mentions ws user ≡ false
        → (if b then true else mentions ws user) ≡ false
    by_name true same rest = sym e ∙ ap (has_byte sep) (sym ((text_eq_iff w user).0 same)) ∙ h
    by_name false other rest = rest

split-append :
    (sep : ℕ) (u v : Text) → has_byte sep u ≡ false → split sep (u ++ sep ∷ v) ≡ u ∷ split sep v
unfolding split cons_head has_byte
split-append sep [] v e = ground arith
split-append sep (c ∷ u) v e = by_sep (c == sep) e (split-append sep u v)
  where
    by_sep :
        (b : Bool)
        → (if b then true else has_byte sep u) ≡ false
        → (has_byte sep u ≡ false → split sep (u ++ sep ∷ v) ≡ u ∷ split sep v)
        → (if b then [] ∷ split sep (u ++ sep ∷ v) else cons_head c (split sep (u ++ sep ∷ v)))
          ≡ (c ∷ u) ∷ split sep v
    by_sep true q rest = absurd cc
    by_sep false q rest = ap (cons_head c) (rest q)

split-free : (sep : ℕ) (u : Text) → has_byte sep u ≡ false → split sep u ≡ u ∷ []
unfolding split cons_head has_byte
split-free sep [] e = refl
split-free sep (c ∷ u) e = by_sep (c == sep) e (split-free sep u)
  where
    by_sep :
        (b : Bool)
        → (if b then true else has_byte sep u) ≡ false
        → (has_byte sep u ≡ false → split sep u ≡ u ∷ [])
        → (if b then [] ∷ split sep u else cons_head c (split sep u)) ≡ (c ∷ u) ∷ []
    by_sep true q rest = absurd cc
    by_sep false q rest = ap (cons_head c) (rest q)

text_leb-total : (u v : Text) → text_leb u v ≡ false → text_leb v u ≡ true
unfolding text_leb
text_leb-total [] v e = absurd cc
text_leb-total (a ∷ u) [] e = refl
text_leb-total (a ∷ u) (b ∷ v) e = ground (arith, text_leb-total u v)

text_leb-antisym : (u v : Text) → text_leb u v ≡ true → text_leb v u ≡ true → u ≡ v
unfolding text_leb
text_leb-antisym [] [] e f = refl
text_leb-antisym [] (b ∷ v) e f = absurd cc
text_leb-antisym (a ∷ u) [] e f = absurd cc
text_leb-antisym (a ∷ u) (b ∷ v) e f = ground (arith, text_leb-antisym u v)

sort_pair_comm : (u v : Text) → sort_pair u v ≡ sort_pair v u
sort_pair_comm u v = by_order (text_leb u v) (text_leb v u) refl refl
  where
    by_order :
        (b c : Bool)
        → text_leb u v ≡ b
        → text_leb v u ≡ c
        → ◌≡◌ {A = Text × Text} (if b then (u, v) else (v, u)) (if c then (v, u) else (u, v))
    by_order true false e f = refl
    by_order false true e f = refl
    by_order true true e f = let same = text_leb-antisym u v e f in cc
    by_order false false e f = absurd (differs (sym (text_leb-total u v e) ∙ f))
      where
        differs : true ≡ false → ⊥
        differs q = cc

mentions-pair :
    (a b w : Text)
    → has_byte b'_' a ≡ false
    → has_byte b'_' b ≡ false
    → mentions (split b'_' ((a ++ codes "_") ++ b)) w ≡ (text_eq a w || text_eq b w)
unfolding mentions
mentions-pair a b w ha hb =
    ap (λ t. mentions (split b'_' t) w) (append_assoc a (codes "_") b)
    ∙ ap (λ ws. mentions ws w) (split-append b'_' a b ha ∙ ap (λ ws. a ∷ ws) (split-free b'_' b hb))
    ∙ ground (arith)

-- The room of two users is one and the same, whichever of them asks for it.
pub dm_room_id_comm : (u v : Text) → dm_room_id u v ≡ dm_room_id v u
unfolding dm_room_id
dm_room_id_comm u v =
    ap (λ (x : Text × Text). codes "dm:" ++ x.0 ++ codes "_" ++ x.1) (sort_pair_comm u v)

module _ {D : Type 0} (p : Platform D) where
  -- For users whose ids have no underscore, the room of two is open to those two and to no one
  -- else.
  pub check_room_permission-dm_room_id :
      (u v w : Text) (s : Server D)
      → has_byte b'_' u ≡ false
      → has_byte b'_' v ≡ false
      → check_room_permission p w (dm_room_id u v) s ≡ some (text_eq u w || text_eq v w)
  unfolding check_room_permission dm_room_id has_prefix is_prefix
  check_room_permission-dm_room_id u v w s hu hv = by_order (text_leb u v)
    where
      by_order :
          (b : Bool)
          → let x : Text × Text = if b then (u, v) else (v, u) in
            some (mentions (split b'_' ((x.0 ++ codes "_") ++ x.1)) w)
            ≡ some (text_eq u w || text_eq v w)
      by_order true = ap some (mentions-pair u v w hu hv)
      by_order false = ap some (mentions-pair v u w hv hu ∙ ground (arith))

  -- A user whose id has an underscore may enter no room for two whatever its id says after "dm:".
  pub check_room_permission-underscore :
      (rest w : Text) (s : Server D)
      → has_byte b'_' w ≡ true
      → check_room_permission p w (dm_prefix ++ rest) s ≡ some false
  unfolding check_room_permission has_prefix is_prefix
  check_room_permission-underscore rest w s h =
      ap some (mentions-AllFree b'_' (split b'_' rest) w (split-AllFree b'_' rest) h)
