-- ===== src/Chat/Removing.antt =====
-- Removals by HTTP: who may join after them, and who stays.
use sio.Base.{◌≡◌, ap, sym, ◌∙◌, true, false, [], ◌∷◌, some}
use mathlib.Core.Path.{subst}
use sio.Base.Text.{Text, codes, text_eq}
use sio.Database.{InMemoryDb, remove_room_member}
use sio.Database.Membership.{removes, changed}
use sio.Chat.Platform.{Platform}
use sio.Chat.State.{Server}
use sio.Chat.Rooms.{check_room_permission}
use sio.Chat.Http.{Request, Response, no_content, room_in_path, done, remove_user_handler}
use sio.Chat.Inviting.{
  IsGroupRequest, stored, passed, Permitted, changed-Permitted, at_both, at_other,
}

module _ (p : Platform InMemoryDb) where
  -- The answer to a removal.
  removed :
      (r : Request) (user : Text) (s : Server InMemoryDb)
      → IsGroupRequest (codes "/remove") r user
      → remove_user_handler (stored p) r s ≡ (
        no_content,
        record s { db = remove_room_member (room_in_path (codes "/remove") r.path) user s.db },
      )
  unfolding remove_user_handler
  removed r user s g =
      passed p
        (λ u.
          done (stored p) (codes "Failed to remove user") s
            (true, remove_room_member (room_in_path (codes "/remove") r.path) u s.db))
        (codes "/remove") r user s g

  -- A removal by POST from a room that is not public and not direct is answered with No Content,
  -- with the in-memory store, and takes the permission to join the room from the user, and from no
  -- one else. But it changes no room in memory and no client object: a client of the user that is
  -- in the room stays in it, by the server's record and by its own.
  pub remove_user_handler-stays :
      (r : Request) (user other : Text) (s : Server InMemoryDb)
      → IsGroupRequest (codes "/remove") r user
      → text_eq user other ≡ false
      → let room = room_in_path (codes "/remove") r.path in
        let (answer, s') = remove_user_handler (stored p) r s in
        (answer ≡ no_content)
        × (check_room_permission (stored p) user room s' ≡ some false)
        × (check_room_permission (stored p) other room s'
            ≡ check_room_permission (stored p) other room s)
        × (s'.rooms ≡ s.rooms)
        × (s'.objects ≡ s.objects)
  remove_user_handler-stays r user other s g apart =
      let after = removed r user s g in
      let permitted : Permitted p room user other false s (remove_user_handler (stored p) r s) =
        subst (Permitted p room user other false s) (sym after) (
          changed-Permitted p (removes room user) false room user other s g.not_public g.not_dm
            ((changed (removes room user ∷ []) room user s.db).0 ∙ at_both room user false _)
            ((changed (removes room user ∷ []) room other s.db).0
              ∙ at_other room user other false _ apart)) in
      (
        permitted.0,
        permitted.1,
        permitted.2,
        ap (λ (a : Response × Server InMemoryDb). a.1.rooms) after,
        ap (λ (a : Response × Server InMemoryDb). a.1.objects) after,
      )
    where
      room : Text
      room = room_in_path (codes "/remove") r.path
