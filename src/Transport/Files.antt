-- ===== src/Transport/Files.antt =====
-- The file exchange of hermytt-transport/src/rest.rs. The directory is a map from names to contents;
-- what the file system answers is an argument of each operation.
pub mod Bounds
pub mod Paths
pub mod Transfer
pub mod Listing
pub mod Tests
use hermytt.Prelude.{
  ℕ, Bool, true, false, ◌||◌, List, [], ◌∷◌, ◌++◌, Option, none, some, is_some, if◌then◌else◌, ltb,
  length, is_empty, take, any, ◌==◌, unwrap_or,
}
use hermytt.Prelude.Text.{Text, codes, contains, eq_text}
use hermytt.Prelude.Map
use hermytt.Prelude.Map.{Map}

pub data Status : Type 0 where
  bad_request not_found payload_too_large internal_server_error : Status

-- The files in the directory, when one is configured. Of directories only this one itself, ".", is
-- known to be there.
abbrev pub Directory : Type 0
Directory = Map Text

unfoldable pub sanitize_filename : Text → Option Text
sanitize_filename name =
    if is_empty name
      || (contains (codes "..") name
          || (any (λ c. c == b'/') name || (any (λ c. c == b'\\') name || any (λ c. c == 0) name)))
    then none
    else some name

-- How much of a file the disk took.
pub data Written : Type 0 where
  all_bytes not_opened : Written
  some_bytes : ℕ → Written

-- A part of the form: its file name, its bytes unless they could not be read, and the fate of the
-- write.
pub record Field : Type 0 where
  pub file_name : Option Text
  pub bytes : Option Text
  pub written : Written

-- Files that were saved with their sizes, or why the upload ended.
pub data Uploaded : Type 0 where
  saved : List (Text × ℕ) → Uploaded
  refused : Status → Uploaded

abbrev also : Text → ℕ → Directory × Uploaded → Directory × Uploaded
also name size (d, saved rows) = (d, saved ((name, size) ∷ rows))
also name size (d, refused status) = (d, refused status)

abbrev write : Directory → Text → Text → Written → Directory
write d name content all_bytes = Map.insert name content d
write d name content (some_bytes n) = Map.insert name (take n content) d
write d name content not_opened = d

abbrev is_written : Written → Bool
is_written all_bytes = true
is_written (some_bytes n) = false
is_written not_opened = false

-- The directory itself, which cannot be opened as a file.
abbrev pub is_directory : Text → Bool
is_directory name = eq_text name (codes ".")

abbrev pub fate : Text → Written → Written
fate name written = if is_directory name then not_opened else written

-- One part once its name is sane: `none` when the loop goes on.
unfoldable pub store_part :
    ℕ → Directory → Text → Option Text → Written → Directory × (Option Status)
store_part max_upload_size d name none written = (d, some bad_request)
store_part max_upload_size d name (some content) written =
    if ltb max_upload_size (length content) then (d, some payload_too_large) else (
      write d name content (fate name written),
      if is_written (fate name written) then none else some internal_server_error,
    )

unfoldable pub upload_part : ℕ → Directory → Field → Option Text → Directory × (Option Status)
unfolding store_part
upload_part max_upload_size d f none = (d, some bad_request)
upload_part max_upload_size d f (some name) = store_part max_upload_size d name f.bytes f.written

abbrev row_name : Field → Text
row_name f = unwrap_or f.file_name (codes "upload")

abbrev pub after_part :
    Directory × Uploaded → Directory → Text → ℕ → Option Status → Directory × Uploaded
after_part rest d name size none = also name size rest
after_part rest d name size (some status) = (d, refused status)

unfoldable pub upload_parts : ℕ → Directory → List Field → Directory × Uploaded
unfolding upload_part
upload_parts max_upload_size d [] = (d, saved [])
upload_parts max_upload_size d (f ∷ fs) =
    let (d', status) = upload_part max_upload_size d f (sanitize_filename (row_name f)) in
    let rest = upload_parts max_upload_size d' fs in
    after_part rest d' (row_name f) (length (unwrap_or f.bytes [])) status

unfoldable pub upload_file : Bool → Bool → ℕ → Directory → List Field → Directory × Uploaded
unfolding upload_parts
upload_file configured created max_upload_size d fields =
    if configured
    then (if created
        then upload_parts max_upload_size d fields
        else (d, refused internal_server_error))
    else (d, refused not_found)

-- A download: the bytes, or why there are none. `readable` is whether the file could be read.
pub data Download : Type 0 where
  served : Text → Download
  failed : Status → Download

abbrev pub read_file : Option Text → Bool → Download
read_file none readable = failed not_found
read_file (some content) readable =
    if readable then served content else failed internal_server_error

unfoldable pub download_sane : Directory → Option Text → Bool → Download
download_sane d none readable = failed bad_request
download_sane d (some name) readable =
    if is_directory name
    then failed internal_server_error
    else read_file (Map.lookup name d) readable

unfoldable pub download_file : Bool → Directory → Text → Bool → Download
unfolding download_sane
download_file configured d filename readable =
    if configured then download_sane d (sanitize_filename filename) readable else failed not_found

unfoldable pub delete_sane : Directory → Option Text → Bool → Directory × (Option Status)
delete_sane d none removable = (d, some bad_request)
delete_sane d (some name) removable =
    if is_directory name
    then (d, some internal_server_error)
    else if is_some (Map.lookup name d)
    then (if removable then (Map.remove name d, none) else (d, some internal_server_error))
    else (d, some not_found)

-- `none` is success.
unfoldable pub delete_file : Bool → Directory → Text → Bool → Directory × (Option Status)
unfolding delete_sane
delete_file configured d filename removable =
    if configured then delete_sane d (sanitize_filename filename) removable else (d, some not_found)
