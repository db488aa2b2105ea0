-- ===== src/Chat/Requested.antt =====
-- What the HTTP side does to the server keeps the invariant.
use sio.Base.{
  pos, ltz, not, Bool, true, false, ◌||◌, if◌then◌else◌, List, [], ◌∷◌, ◌++◌, Option, none, some, ℕ,
  ℤ,
}
use sio.Base.Text.{Text, codes, text_eq, contains}
use sio.Chat.Types.{Incoming}
use sio.Chat.Platform.{Platform}
use sio.Chat.State.{Client, Server}
use sio.Chat.Handlers.{Moment}
use sio.Chat.Shares.{max_file_size}
use sio.Chat.Direct.{
  client_of_user, for_client, create_group_room, create_dm_room, handle_file_share_from_http,
  handle_media_share_from_http,
}
use sio.Chat.Http.{
  NewRoom, Request, Response, refused, made, create_wanted, create_room_handler, done, with_user,
  delete_room_handler, invite_user_handler, remove_user_handler, ban_user_handler, rooms_route,
  api_rooms, trim_prefix, has_suffix,
}
use sio.Chat.Upload.{
  Part, Form, Encoders, FileInfo, share_part, upload_files, some_files, file_upload_handler,
  info_of,
}
use sio.Chat.Quiet.{Holds}
use sio.Chat.Kept.{either-Holds, handle_file_share-Holds, handle_media_share-Holds}

-- An answer with a state in which the invariant holds.
pub record IsAnswered {A D : Type 0} (a : A × Server D) : Type 0 where
  pub holds : Holds a.1

whole : {A D : Type 0} (a : A × Server D) → Holds a.1 → IsAnswered a
whole a w = record { holds = w }

stays : {A D : Type 0} {a : A} (s : Server D) → Holds s → IsAnswered (a, s)
stays s w = record { holds = w }

either :
    {A D : Type 0} (b : Bool) (x y : A × Server D)
    → IsAnswered x
    → IsAnswered y
    → IsAnswered (if b then x else y)
either true x y h k = h
either false x y h k = k

module _ {D : Type 0} (p : Platform D) where
  shared-Holds :
      (f : Client → Server D → Server D) (o : Option Client) (s : Server D)
      → Holds s
      → ((c : Client) → Holds (f c s))
      → Holds (for_client p f o s)
  shared-Holds f none s w k = w
  shared-Holds f (some c) s w k = k c

  pub file_share_from_http-Holds :
      (t : Moment) (user : Text) (msg : Incoming) (s : Server D)
      → Holds s
      → Holds (handle_file_share_from_http p t user msg s)
  unfolding handle_file_share_from_http
  file_share_from_http-Holds t user msg s w =
      shared-Holds _ (client_of_user user s.clients s.objects) s w
        (λ c. handle_file_share-Holds p t c msg s w)

  pub media_share_from_http-Holds :
      (t : Moment) (user : Text) (msg : Incoming) (s : Server D)
      → Holds s
      → Holds (handle_media_share_from_http p t user msg s)
  unfolding handle_media_share_from_http
  media_share_from_http-Holds t user msg s w =
      shared-Holds _ (client_of_user user s.clients s.objects) s w
        (λ c. handle_media_share-Holds p t c msg s w)

  made-IsAnswered : (s : Server D) (a : Option Text × D) → Holds s → IsAnswered (made p s a)
  made-IsAnswered s (some id, db) w = whole _ w
  made-IsAnswered s (none, db) w = whole _ w

  create_wanted-IsAnswered :
      (now : ℕ) (random : List ℕ) (o : Option NewRoom) (s : Server D)
      → Holds s
      → IsAnswered (create_wanted p now random o s)
  create_wanted-IsAnswered now random none s w = whole _ w
  create_wanted-IsAnswered now random (some r) s w =
      by_tests (text_eq r.name [] || text_eq r.room_type [] || text_eq r.user_id [])
        (text_eq r.room_type (codes "group")) (text_eq r.room_type (codes "dm"))
        (text_eq r.user_id2 [])
    where
      by_tests :
          (a b c d : Bool)
          → IsAnswered (
              if a
              then (refused 400 (codes "Name, type, and userId are required"), s)
              else if b
              then made p s (create_group_room p now random r.name r.user_id s.db)
              else if c
              then if d
                then (refused 400 (codes "userId2 required for DM rooms"), s)
                else made p s (create_dm_room p now r.user_id r.user_id2 s.db)
              else (refused 400 (codes "Invalid room type"), s))
      by_tests true b c d = stays s w
      by_tests false true c d =
          made-IsAnswered s (create_group_room p now random r.name r.user_id s.db) w
      by_tests false false true true = stays s w
      by_tests false false true false =
          made-IsAnswered s (create_dm_room p now r.user_id r.user_id2 s.db) w
      by_tests false false false d = stays s w

  pub create_room_handler-IsAnswered :
      (now : ℕ) (random : List ℕ) (r : Request) (s : Server D)
      → Holds s
      → IsAnswered (create_room_handler p now random r s)
  unfolding create_room_handler
  create_room_handler-IsAnswered now random r s w =
      either (text_eq r.method (codes "POST")) _ _
        (create_wanted-IsAnswered now random r.wanted s w) (stays s w)

  done-IsAnswered :
      (failed : Text) (s : Server D) (a : Bool × D) → Holds s → IsAnswered (done p failed s a)
  done-IsAnswered failed s (true, db) w = whole _ w
  done-IsAnswered failed s (false, db) w = whole _ w

  with_user-IsAnswered :
      (f : Text → Response × Server D) (o : Option Text) (s : Server D)
      → Holds s
      → ((user : Text) → IsAnswered (f user))
      → IsAnswered (with_user p f o s)
  with_user-IsAnswered f none s w k = whole _ w
  with_user-IsAnswered f (some user) s w k = either (text_eq user []) _ _ (stays s w) (k user)

  delete_room_handler-IsAnswered :
      (r : Request) (s : Server D) → Holds s → IsAnswered (delete_room_handler p r s)
  unfolding delete_room_handler
  delete_room_handler-IsAnswered r s w =
      either (text_eq r.method (codes "DELETE")) _ _
        (either (text_eq (trim_prefix api_rooms r.path) []) _ _ (stays s w) (
          done-IsAnswered (codes "Failed to delete room") s
            (p.db.delete_room (trim_prefix api_rooms r.path) s.db) w))
        (stays s w)

  invite_user_handler-IsAnswered :
      (now : ℕ) (r : Request) (s : Server D) → Holds s → IsAnswered (invite_user_handler p now r s)
  unfolding invite_user_handler
  invite_user_handler-IsAnswered now r s w =
      either (text_eq r.method (codes "POST")) _ _
        (with_user-IsAnswered _ r.invited s w (λ user.
          done-IsAnswered (codes "Failed to invite user") s (p.db.add_room_member _ s.db) w))
        (stays s w)

  remove_user_handler-IsAnswered :
      (r : Request) (s : Server D) → Holds s → IsAnswered (remove_user_handler p r s)
  unfolding remove_user_handler
  remove_user_handler-IsAnswered r s w =
      either (text_eq r.method (codes "POST")) _ _
        (with_user-IsAnswered _ r.invited s w (λ user.
          done-IsAnswered (codes "Failed to remove user") s (p.db.remove_room_member _ _ s.db) w))
        (stays s w)

  ban_user_handler-IsAnswered :
      (r : Request) (s : Server D) → Holds s → IsAnswered (ban_user_handler p r s)
  unfolding ban_user_handler
  ban_user_handler-IsAnswered r s w =
      either (text_eq r.method (codes "POST")) _ _
        (with_user-IsAnswered _ r.invited s w (λ user. whole _ w)) (stays s w)

  pub rooms_route-IsAnswered :
      (atoi : Text → Option ℤ) (now : ℕ) (r : Request) (s : Server D)
      → Holds s
      → IsAnswered (rooms_route p atoi now r s)
  unfolding rooms_route
  rooms_route-IsAnswered atoi now r s w =
      either (has_suffix r.path (codes "/messages")) _ _ (stays s w) (
        either (has_suffix r.path (codes "/members")) _ _ (stays s w) (
          either (has_suffix r.path (codes "/invite")) _ _
            (invite_user_handler-IsAnswered now r s w)
            (either (has_suffix r.path (codes "/remove")) _ _ (remove_user_handler-IsAnswered r s w)
              (either (has_suffix r.path (codes "/ban")) _ _ (ban_user_handler-IsAnswered r s w) (
                either (text_eq r.method (codes "DELETE")) _ _
                  (delete_room_handler-IsAnswered r s w)
                  (either (contains r.path (codes "/threads")) _ _ (stays s w) (stays s w)))))))

  share_part-Holds :
      (e : Encoders) (t : Moment) (form : Form) (f : Part) (s : Server D)
      → Holds s
      → Holds (share_part p e t form f s)
  unfolding share_part
  share_part-Holds e t form f s w =
      either-Holds _ _ _ (media_share_from_http-Holds t form.user_id _ s w)
        (file_share_from_http-Holds t form.user_id _ s w)

  upload_files-IsAnswered :
      (e : Encoders) (form : Form) (files : List (Moment × Part)) (all : List FileInfo)
      (s : Server D)
      → Holds s
      → IsAnswered (upload_files p e form files all s)
  unfolding upload_files
  upload_files-IsAnswered e form [] all s w = whole _ w
  upload_files-IsAnswered e form ((t, f) ∷ files) all s w =
      either (not f.opens) _ _ (upload_files-IsAnswered e form files all s w) (
        either (ltz (pos max_file_size) f.size) _ _ (stays s w) (
          either (not f.reads) _ _ (upload_files-IsAnswered e form files all s w) (
            upload_files-IsAnswered e form files (all ++ info_of t f ∷ [])
              (share_part p e t form f s) (share_part-Holds e t form f s w))))

  pub file_upload_handler-IsAnswered :
      (e : Encoders) (form : Form) (s : Server D)
      → Holds s
      → IsAnswered (file_upload_handler p e form s)
  unfolding file_upload_handler
  file_upload_handler-IsAnswered e form s w =
      either (not (text_eq form.method (codes "POST"))) _ _ (stays s w) (
        either (not form.parses) _ _ (stays s w) (
          either (text_eq form.user_id [] || text_eq form.username [] || text_eq form.room_id []) _
            _ (stays s w) (files form.files)))
    where
      files : (fs : List (Moment × Part)) → IsAnswered (some_files p e form fs s)
      files [] = whole _ w
      files (f ∷ fs) = upload_files-IsAnswered e form (f ∷ fs) [] s w
