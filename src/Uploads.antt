-- ===== src/Uploads.antt =====
-- application/services/uploads.py: a file that is uploaded becomes an object of the storage and a
-- row of the database. The storage is `MemoryObjectStorage` of infrastructure/storage/minio.py.
--
-- The storage and the database fail where the arguments say so; a call of them that fails changes
-- nothing. The bytes of a file are a list of numbers.
pub mod Named
pub mod Stored
mod Samples
use bond_trading.Prelude.{
  ℕ, ◌+◌, Bool, true, false, not, ◌&&◌, ◌||◌, List, [], ◌∷◌, ◌++◌, Option, none, some, find,
  update_where, leb, ◌==◌, if◌then◌else◌, length, take,
}
use bond_trading.Prelude.Texts.{Text, codes, text_eq, nonempty}
use bond_trading.Prelude.Results.{Result, ok, err}
use bond_trading.Database.{Uuid, Time, UploadedFileModel}
use mathlib.Core.List.{reverse}

-- `Path(file_name).name` and `.suffix` of pathlib, `str.lower`, SHA-256 and the `str` of a UUID.
pub record UploadLibrary : Type 0 where
  pub path_name : Text → Text
  pub path_suffix : Text → Text
  pub lower : Text → Text
  pub sha256 : List ℕ → Text
  pub uuid_text : Uuid → Text

pub record StoredObject : Type 0 where
  pub content : List ℕ
  pub content_type : Text

abbrev pub Objects : Type 0
Objects = Text → Option StoredObject

-- `MemoryObjectStorage.put`
unfoldable pub put_object : Text → List ℕ → Text → Objects → Objects
put_object object_key content content_type objects key =
    if text_eq key object_key
    then some (record { content = content; content_type = content_type })
    else objects key

-- `MemoryObjectStorage.delete`
unfoldable pub delete_object : Text → Objects → Objects
delete_object object_key objects key = if text_eq key object_key then none else objects key

pub record UploadState : Type 0 where
  pub objects : Objects
  pub uploads : List UploadedFileModel
  pub next_id : Uuid

-- Which calls of the storage and the database raise.
pub record Faults : Type 0 where
  pub put_fails : Bool
  pub commit_fails : Bool
  pub delete_fails : Bool

pub data UploadError : Type 0 where
  storage_error : UploadError
  database_error : UploadError

-- A character that `_safe_name` keeps.
unfoldable pub is_safe : ℕ → Bool
is_safe c =
    (leb b'A' c && leb c b'Z')
    || (leb b'a' c && leb c b'z')
    || (leb 0x410 c && leb c 0x42f)
    || (leb 0x430 c && leb c 0x44f)
    || c == 0x401
    || c == 0x451
    || (leb b'0' c && leb c b'9')
    || c == b'.'
    || c == b'_'
    || c == b' '
    || c == b'-'

-- `re.sub`: a run of other characters becomes one underscore; the flag is set inside a run.
unfoldable pub sanitize : Bool → Text → Text
sanitize in_run [] = []
sanitize in_run (c ∷ cs) =
    let rest = sanitize (not (is_safe c)) cs in
    if is_safe c then c ∷ rest else if in_run then rest else b'_' ∷ rest

-- `lstrip` of spaces and dots
abbrev pub drop_marks : Text → Text
drop_marks [] = []
drop_marks (c ∷ cs) = if c == b' ' || c == b'.' then drop_marks cs else c ∷ cs

-- `strip(" .")`
abbrev pub strip_marks : Text → Text
strip_marks name = reverse (drop_marks (reverse (drop_marks name)))

-- `lstrip(".")`
unfoldable pub drop_dots : Text → Text
drop_dots [] = []
drop_dots (c ∷ cs) = if c == b'.' then drop_dots cs else c ∷ cs

-- `[:255] or "spreadsheet"`
unfoldable pub cut_name : Text → Text
cut_name name = if nonempty (take 255 name) then take 255 name else codes "spreadsheet"

-- `get`
unfoldable pub get_upload : Uuid → Uuid → UploadState → Option UploadedFileModel
get_upload owner upload_id s = find (λ u. u.id == upload_id && u.owner_id == owner) s.uploads

abbrev pub set_status : Text → Option Text → UploadedFileModel → UploadState → UploadState
set_status status parse_error upload s = record s {
  uploads =
      update_where (λ u. u.id == upload.id)
        (λ u. record u { status = status; parse_error = parse_error }) s.uploads;
}

-- `mark_parsed`
unfoldable pub mark_parsed : UploadedFileModel → UploadState → UploadState
mark_parsed upload s = set_status (codes "parsed") none upload s

-- `mark_failed`, of the text of the exception.
unfoldable pub mark_failed : UploadedFileModel → Text → UploadState → UploadState
mark_failed upload error s = set_status (codes "failed") (some (take 4000 error)) upload s

module _ (lib : UploadLibrary) where
  open lib use {path_name, path_suffix, lower, sha256, uuid_text}

  -- `_safe_name`
  unfoldable pub safe_name : Text → Text
  safe_name file_name = cut_name (strip_marks (sanitize false (path_name file_name)))

  unfoldable pub object_key_of : Uuid → Uuid → Text → Text
  object_key_of owner upload_id file_name =
      codes "users/"
      ++ uuid_text owner
      ++ codes "/uploads/"
      ++ uuid_text upload_id
      ++ codes "/"
      ++ safe_name file_name

  abbrev pub new_upload : Uuid → Uuid → Text → Text → List ℕ → Time → UploadedFileModel
  new_upload owner upload_id file_name content_type content now = record {
    id = upload_id;
    created_at = now;
    owner_id = owner;
    original_file_name = path_name file_name;
    object_key = object_key_of owner upload_id file_name;
    content_type = content_type;
    file_format = drop_dots (lower (path_suffix file_name));
    size_bytes = length content;
    checksum = sha256 content;
    status = codes "uploaded";
    parse_error = none;
  }

  -- `store`: what it returns or raises, and the state that it leaves. Where the deletion fails in
  -- the handler of a failed commit, its error is what is raised.
  unfoldable pub store :
      Uuid
      → Faults
      → Text
      → Text
      → List ℕ
      → Time
      → UploadState
      → Result UploadError UploadedFileModel × UploadState
  store owner faults file_name content_type content now s =
      let upload = new_upload owner s.next_id file_name content_type content now in
      let objects = put_object upload.object_key content content_type s.objects in
      if faults.put_fails
      then (err storage_error, s)
      else if not faults.commit_fails
      then (
        ok upload,
        record { objects = objects; uploads = s.uploads ++ upload ∷ []; next_id = s.next_id + 1 },
      )
      else if faults.delete_fails
      then (err storage_error, record s { objects = objects })
      else (err database_error, record s { objects = delete_object upload.object_key objects })
