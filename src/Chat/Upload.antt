-- ===== src/Chat/Upload.antt =====
-- chat/http.go: files that come by HTTP, in a multipart form.
use sio.Base.{
  ℕ, ◌≡◌, ap, ◌∙◌, ℤ, pos, Bool, true, false, not, ◌||◌, if◌then◌else◌, if-true, if-false, List, [],
  ◌∷◌, ◌++◌, ltz,
}
use sio.Base.Text.{Text, codes, text_eq}
use sio.Chat.Types.{
  MessageType, Incoming, FileSharePayload, MediaSharePayload, file_share, media_share,
}
use sio.Chat.Platform.{Platform}
use sio.Chat.State.{Server}
use sio.Chat.Handlers.{Moment}
use sio.Chat.Shares.{max_file_size}
use sio.Chat.Direct.{handle_file_share_from_http, handle_media_share_from_http}

-- A file of the form: whether it can be opened and read, and what is found. `file_id` is the id
-- that generateFileID draws for it.
pub record Part : Type 0 where
  pub opens : Bool
  pub reads : Bool
  pub file_name : Text
  pub size : ℤ
  pub content_type : Text
  pub bytes : List ℕ
  pub file_id : Text

-- The request: `parses` is whether ParseMultipartForm takes it. Each file stands with the time and
-- the message id that are drawn for it.
pub record Form : Type 0 where
  pub method : Text
  pub parses : Bool
  pub user_id : Text
  pub username : Text
  pub room_id : Text
  pub media_type : Text
  pub files : List (Moment × Part)

-- The JSON of a payload, and base64.
pub record Encoders : Type 0 where
  pub file_json : FileSharePayload → Text
  pub media_json : MediaSharePayload → Text
  pub base64 : List ℕ → Text

-- What the answer tells of a file; its url is made of its id.
pub record FileInfo : Type 0 where
  pub file_id : Text
  pub file_name : Text
  pub file_size : ℤ
  pub file_type : Text
  pub message_id : Text

pub data Answer : Type 0 where
  turned_down : ℕ → Text → Answer
  uploaded : List FileInfo → Answer

abbrev pub info_of : Moment → Part → FileInfo
info_of t f = record {
  file_id = f.file_id;
  file_name = f.file_name;
  file_size = f.size;
  file_type = f.content_type;
  message_id = t.fresh_id;
}

abbrev pub too_large : Part → Answer
too_large f = turned_down 413 (codes "File " ++ f.file_name ++ codes " is too large (max 10MB)")

abbrev pub upload_message : Moment → Form → MessageType → Text → Incoming
upload_message t form kind payload = record {
  kind = kind;
  room_id = form.room_id;
  message_id = t.fresh_id;
  payload = payload;
}

module _ {D : Type 0} (p : Platform D) (e : Encoders) where
  unfoldable pub share_part : Moment → Form → Part → Server D → Server D
  share_part t form f s =
      if not (text_eq form.media_type [])
      then handle_media_share_from_http p t form.user_id
          (upload_message t form media_share (
            e.media_json (record {
              media_type = form.media_type;
              media_data = e.base64 f.bytes;
              duration = pos 0;
              thumbnail = [];
              user_id = form.user_id;
              username = form.username;
              message_id = t.fresh_id;
              room_id = [];
              file_url = [];
            })))
          s
      else handle_file_share_from_http p t form.user_id
          (upload_message t form file_share (
            e.file_json (record {
              message_id = t.fresh_id;
              user_id = form.user_id;
              username = form.username;
              file_name = f.file_name;
              file_size = f.size;
              file_type = f.content_type;
              file_data = e.base64 f.bytes;
              file_url = [];
              room_id = [];
            })))
          s

  -- The range over the files: one that does not open or read is passed over, one that is too large
  -- ends it.
  unfoldable pub upload_files :
      Form → List (Moment × Part) → List FileInfo → Server D → Answer × Server D
  upload_files form [] done s = (uploaded done, s)
  upload_files form ((t, f) ∷ files) done s =
      let passed = upload_files form files done s in
      let shared = upload_files form files (done ++ info_of t f ∷ []) (share_part t form f s) in
      if not f.opens
      then passed
      else if ltz (pos max_file_size) f.size
      then (too_large f, s)
      else if not f.reads
      then passed
      else shared

  abbrev pub some_files : Form → List (Moment × Part) → Server D → Answer × Server D
  some_files form [] s = (turned_down 400 (codes "No files uploaded"), s)
  some_files form (f ∷ files) s = upload_files form (f ∷ files) [] s

  unfoldable pub file_upload_handler : Form → Server D → Answer × Server D
  file_upload_handler form s =
      if not (text_eq form.method (codes "POST"))
      then (turned_down 405 (codes "Method not allowed"), s)
      else if not form.parses
      then (turned_down 400 (codes "Failed to parse form data"), s)
      else if text_eq form.user_id [] || text_eq form.username [] || text_eq form.room_id []
      then (turned_down 400 (codes "Missing required parameters"), s)
      else some_files form form.files s

  -- Where a run over files has ended well, a file behind them that opens and is too large turns
  -- the whole upload down with 413, while those before it stay shared: the state is the one that
  -- they have left, and what follows is not looked at.
  pub upload_files-too_large :
      (form : Form) (files rest : List (Moment × Part)) (t : Moment) (f : Part)
      (done all : List FileInfo) (s s' : Server D)
      → upload_files form files done s ≡ (uploaded all, s')
      → f.opens ≡ true
      → ltz (pos max_file_size) f.size ≡ true
      → upload_files form (files ++ (t, f) ∷ rest) done s ≡ (too_large f, s')
  unfolding upload_files
  upload_files-too_large form [] rest t f done all s s' ran opens large =
      if-false (not f.opens) (upload_files form rest done s) _ (ap not opens)
      ∙ if-true (ltz (pos max_file_size) f.size) (too_large f, s) _ large
      ∙ ap (λ (r : Answer × Server D). (too_large f, r.1)) ran
  upload_files-too_large form ((t1, f1) ∷ files) rest t f done all s s' ran opens large =
      by_file (not f1.opens) (ltz (pos max_file_size) f1.size) (not f1.reads) ran
        (λ q. upload_files-too_large form files rest t f done all s s' q opens large)
        (λ q.
          upload_files-too_large form files rest t f (done ++ info_of t1 f1 ∷ []) all
            (share_part t1 form f1 s) s' q opens large)
    where
      passed : List (Moment × Part) → Answer × Server D
      passed fs = upload_files form fs done s

      shared : List (Moment × Part) → Answer × Server D
      shared fs = upload_files form fs (done ++ info_of t1 f1 ∷ []) (share_part t1 form f1 s)

      by_file :
          (a b c : Bool)
          → (if a
              then passed files
              else if b
              then (too_large f1, s)
              else if c
              then passed files
              else shared files)
            ≡ (uploaded all, s')
          → (passed files ≡ (uploaded all, s')
              → passed (files ++ (t, f) ∷ rest) ≡ (too_large f, s'))
          → (shared files ≡ (uploaded all, s')
              → shared (files ++ (t, f) ∷ rest) ≡ (too_large f, s'))
          → (if a
              then passed (files ++ (t, f) ∷ rest)
              else if b
              then (too_large f1, s)
              else if c
              then passed (files ++ (t, f) ∷ rest)
              else shared (files ++ (t, f) ∷ rest))
            ≡ (too_large f, s')
      by_file true b c q skip go = skip q
      by_file false true c q skip go = absurd (differs (ap (λ (r : Answer × Server D). r.0) q))
        where
          differs : too_large f1 ≡ uploaded all → ⊥
          differs x = cc
      by_file false false true q skip go = skip q
      by_file false false false q skip go = go q
