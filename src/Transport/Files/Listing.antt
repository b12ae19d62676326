-- ===== src/Transport/Files/Listing.antt =====
-- `list_files` of hermytt-transport/src/rest.rs, over what reading the directory answers, and what it
-- shows after an upload.
use hermytt.Prelude.{
  ℕ, Bool, true, ◌≡◌, refl, ap, ◌∙◌, List, [], ◌∷◌, Option, none, some, if◌then◌else◌, length,
  Bool-cases, inl, inr, map,
}
use hermytt.Prelude.Text.{Text, eq_text}
use hermytt.Prelude.Map
use hermytt.Transport.Files.{
  Directory, Field, Status, internal_server_error, saved, upload_file, upload_parts,
}
use hermytt.Transport.Files.Transfer.{latest, upload_parts-lookup}

pub record Metadata : Type 0 where
  pub is_file : Bool
  pub len : ℕ

-- What `next_entry` gives before its end: a name, with what is known of it, or an error.
pub data NextEntry : Type 0 where
  entry : Text → Option Metadata → NextEntry
  entry_failed : NextEntry

pub data Listing : Type 0 where
  files : List (Text × ℕ) → Listing
  refused_listing : Status → Listing

abbrev is_kept : Option Metadata → Bool
is_kept none = true
is_kept (some m) = m.is_file

abbrev size_of : Option Metadata → ℕ
size_of none = 0
size_of (some m) = m.len

unfoldable pub collect : List NextEntry → List (Text × ℕ)
collect [] = []
collect (entry_failed ∷ es) = []
collect (entry name meta ∷ es) =
    let rest = collect es in if is_kept meta then (name, size_of meta) ∷ rest else rest

-- Of `read_dir`, `none` is its failure.
abbrev read_entries : Option (List NextEntry) → Listing
read_entries none = refused_listing internal_server_error
read_entries (some es) = files (collect es)

unfoldable pub list_files : Bool → Bool → Option (List NextEntry) → Listing
list_files configured exists read_dir =
    if configured then (if exists then read_entries read_dir else files []) else files []

-- What the operating system answers about a directory with these files.
abbrev entries_of : Directory → List NextEntry
entries_of d =
    map (λ (name, content). entry name (some (record { is_file = true; len = length content }))) d

abbrev sizes : Directory → List (Text × ℕ)
sizes d = map (λ (name, content). (name, length content)) d

abbrev length_of : Option Text → Option ℕ
length_of none = none
length_of (some content) = some (length content)

collect-entries : (d : Directory) → collect (entries_of d) ≡ sizes d
unfolding collect
collect-entries [] = refl
collect-entries ((name, content) ∷ d) =
    ap (λ rest. (name, length content) ∷ rest) (collect-entries d)

lookup-sizes :
    (name : Text) (d : Directory) → Map.lookup name (sizes d) ≡ length_of (Map.lookup name d)
unfolding Map.lookup
lookup-sizes name [] = refl
lookup-sizes name ((own, content) ∷ d) = elim (Bool-cases (eq_text own name)) [
  | inl q ↦ rw q refl
  | inr q ↦ rw q (lookup-sizes name d)
]

-- After an upload that reports success, the listing of the directory shows under each name the length
-- of what the last part of that name brought, or of what was there before when there is no such part.
pub upload_then_list :
    (max : ℕ) (d : Directory) (fs : List Field) (name : Text) (rows : List (Text × ℕ))
    → (upload_file true true max d fs).1 ≡ saved rows
    → let d' : Directory = (upload_file true true max d fs).0 in
      (list_files true true (some (entries_of d')) ≡ files (sizes d'))
      × (Map.lookup name (sizes d') ≡ length_of (latest name fs (Map.lookup name d)))
unfolding upload_file list_files
upload_then_list max d fs name rows h = (
  ap files (collect-entries (upload_parts max d fs).0),
  lookup-sizes name (upload_parts max d fs).0
      ∙ ap length_of (upload_parts-lookup max d fs name rows h),
)
