-- ===== src/Chat/Inviting.antt =====
-- Invitations by HTTP, and who may join and joins by them.
use sio.Base.{
  ◌≡◌, refl, ap, sym, ◌∙◌, Bool, true, false, ◌&&◌, if◌then◌else◌, if-true, if-false, [], ◌∷◌, some,
}
use sio.Base.Text.{Text, codes, text_eq, text_eq_iff, text_key, has_prefix}
use sio.Database.{InMemoryDb, is_user_in_room}
use sio.Database.Membership.{Change, changes}
use sio.Chat.Platform.{Platform, in_memory}
use sio.Chat.State.{Server}
use sio.Chat.Rooms.{public_prefix, dm_prefix, check_room_permission}
use sio.Chat.Http.{Request, Response, no_content, room_in_path, with_user, bad_method}

-- A request that a handler with a user in the body lets through: a POST that names one, for a room
-- whose members the store has.
pub record IsGroupRequest (action : Text) (r : Request) (user : Text) : Type 0 where
  pub posted : text_eq r.method (codes "POST") ≡ true
  pub named : r.invited ≡ some user
  pub someone : text_eq user [] ≡ false
  pub not_public : has_prefix (room_in_path action r.path) public_prefix ≡ false
  pub not_dm : has_prefix (room_in_path action r.path) dm_prefix ≡ false

pub at_both :
    (room user : Text) (x y : Bool) → (if text_eq room room && text_eq user user then x else y) ≡ x
at_both room user x y =
    ap (λ b. if b && text_eq user user then x else y) ((text_eq_iff room room).1 refl)
    ∙ ap (λ b. if b then x else y) ((text_eq_iff user user).1 refl)

pub at_other :
    (room user other : Text) (x y : Bool)
    → text_eq user other ≡ false
    → (if text_eq room room && text_eq user other then x else y) ≡ y
at_other room user other x y e =
    ap (λ b. if b && text_eq user other then x else y) ((text_eq_iff room room).1 refl)
    ∙ ap (λ b. if b then x else y) e

module _ (p : Platform InMemoryDb) where
  abbrev pub stored : Platform InMemoryDb
  stored = record p { db = in_memory }

  stored_permission :
      (user room : Text) (s : Server InMemoryDb)
      → has_prefix room public_prefix ≡ false
      → has_prefix room dm_prefix ≡ false
      → check_room_permission stored user room s ≡ some (is_user_in_room room user s.db)
  unfolding check_room_permission
  stored_permission user room s np nd =
      if-false (has_prefix room public_prefix) (some true) _ np
      ∙ if-false (has_prefix room dm_prefix) _ (some (is_user_in_room room user s.db)) nd

  -- A handler that lets its request through.
  pub passed :
      (f : Text → Response × Server InMemoryDb) (action : Text) (r : Request) (user : Text)
      (s : Server InMemoryDb)
      → IsGroupRequest action r user
      → (if text_eq r.method (codes "POST")
          then with_user stored f r.invited s
          else (bad_method stored, s))
        ≡ f user
  passed f action r user s g =
      if-true (text_eq r.method (codes "POST")) (with_user stored f r.invited s) _ g.posted
      ∙ ap (λ o. with_user stored f o s) g.named
      ∙ if-false (text_eq user []) _ (f user) g.someone

  -- The permissions of a user and of another behind a change of the store.
  abbrev pub Permitted :
      Text → Text → Text → Bool → Server InMemoryDb → Response × Server InMemoryDb → Type 0
  Permitted room user other b s (answer, s') =
      (answer ≡ no_content)
      × (check_room_permission stored user room s' ≡ some b)
      × (check_room_permission stored other room s' ≡ check_room_permission stored other room s)

  pub changed-Permitted :
      (c : Change) (b : Bool) (room user other : Text) (s : Server InMemoryDb)
      → has_prefix room public_prefix ≡ false
      → has_prefix room dm_prefix ≡ false
      → is_user_in_room room user (changes (c ∷ []) s.db) ≡ b
      → is_user_in_room room other (changes (c ∷ []) s.db) ≡ is_user_in_room room other s.db
      → Permitted room user other b s (no_content, record s { db = changes (c ∷ []) s.db })
  changed-Permitted c b room user other s np nd own rest =
      let s' = record s { db = changes (c ∷ []) s.db } in
      (
        refl,
        stored_permission user room s' np nd ∙ ap some own,
        stored_permission other room s' np nd
            ∙ ap some rest
            ∙ sym (stored_permission other room s np nd),
      )
