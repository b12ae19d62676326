-- ===== src/Transport/Files/Transfer.antt =====
-- The file exchange of hermytt-transport/src/rest.rs: uploads followed by downloads.
use hermytt.Prelude.{
  false, ℕ, ◌≡◌, refl, ap, ◌∙◌, true, List, [], ◌∷◌, Option, none, some, if◌then◌else◌, arith,
  Bool-cases, inl, inr, ltb, length,
}
use hermytt.Prelude.Text.{Text, eq_text}
use hermytt.Prelude.Map
use hermytt.Prelude.Map.{Map, lookup-insert, lookup-remove}
use hermytt.Transport.Files.{
  Directory, Field, Written, all_bytes, some_bytes, not_opened, Uploaded, Status, saved, refused,
  sanitize_filename, upload_file, upload_parts, upload_part, store_part, download_file,
  download_sane, read_file, row_name, after_part, fate, is_directory, write, is_written,
  internal_server_error,
}

-- What the parts of a form leave under a name that had `old` before: the last part of that name
-- counts.
unfoldable pub latest : Text → List Field → Option Text → Option Text
latest name [] old = old
latest name (f ∷ fs) old = latest name fs (if eq_text (row_name f) name then f.bytes else old)

write-lookup :
    (d : Directory) (own name content : Text) (w : Written)
    → (if is_written w then none else some internal_server_error) ≡ none
    → Map.lookup name (write d own content w)
      ≡ (if eq_text own name then some content else Map.lookup name d)
write-lookup d own name content all_bytes h = lookup-insert own name content d
write-lookup d own name content (some_bytes k) h = cc
write-lookup d own name content not_opened h = cc

store_part-lookup :
    (max : ℕ) (d : Directory) (own name : Text) (bytes : Option Text) (w : Written)
    → (store_part max d own bytes w).1 ≡ none
    → Map.lookup name (store_part max d own bytes w).0
      ≡ (if eq_text own name then bytes else Map.lookup name d)
unfolding store_part
store_part-lookup max d own name none w h = cc
store_part-lookup max d own name (some content) w h = elim (Bool-cases (ltb max (length content))) [
  | inl t ↦ cc
  | inr t ↦ rw t (write-lookup d own name content (fate own w) (ground (arith, h, t)))
]

sanitize-own : (name n : Text) → sanitize_filename name ≡ some n → n ≡ name
unfolding sanitize_filename
sanitize-own name n h = ground (arith, h)

upload_part-lookup :
    (max : ℕ) (d : Directory) (f : Field) (name : Text) (o : Option Text)
    → sanitize_filename (row_name f) ≡ o
    → (upload_part max d f o).1 ≡ none
    → Map.lookup name (upload_part max d f o).0
      ≡ (if eq_text (row_name f) name then f.bytes else Map.lookup name d)
unfolding upload_part
upload_part-lookup max d f name none e h = cc
upload_part-lookup max d f name (some own) e h =
    store_part-lookup max d own name f.bytes f.written h
    ∙ ap (λ n. if eq_text n name then f.bytes else Map.lookup name d)
        (sanitize-own (row_name f) own e)

after_part-done :
    (rest : Directory × Uploaded) (d : Directory) (name : Text) (size : ℕ) (o : Option Status)
    (rows : List (Text × ℕ))
    → (after_part rest d name size o).1 ≡ saved rows
    → ((o ≡ none) × ((after_part rest d name size o).0 ≡ rest.0))
      × ((more : List (Text × ℕ)) × (rest.1 ≡ saved more))
after_part-done (e, saved more) d name size none rows h = ((refl, refl), (more, refl))
after_part-done (e, refused s) d name size none rows h = cc
after_part-done rest d name size (some status) rows h = cc

pub upload_parts-lookup :
    (max : ℕ) (d : Directory) (fs : List Field) (name : Text) (rows : List (Text × ℕ))
    → (upload_parts max d fs).1 ≡ saved rows
    → Map.lookup name (upload_parts max d fs).0 ≡ latest name fs (Map.lookup name d)
unfolding upload_parts latest
upload_parts-lookup max d [] name rows h = refl
upload_parts-lookup max d (f ∷ fs) name rows h =
    let part : Directory × (Option Status) = upload_part max d f (sanitize_filename (row_name f)) in
    let ((done, same), (more, e)) =
      after_part-done (upload_parts max part.0 fs) part.0 (row_name f) _ part.1 rows h in
    ap (Map.lookup name) same
    ∙ upload_parts-lookup max part.0 fs name more e
    ∙ ap (latest name fs)
        (upload_part-lookup max d f name (sanitize_filename (row_name f)) refl done)

-- After an upload that reports success, a readable download of any name that passes the check,
-- other than ".", serves the bytes of the last part of that name in the form, and what was there before when there
-- is no such part.
pub upload_then_download :
    (max : ℕ) (d : Directory) (fs : List Field) (name : Text) (rows : List (Text × ℕ))
    → (upload_file true true max d fs).1 ≡ saved rows
    → sanitize_filename name ≡ some name
    → is_directory name ≡ false
    → download_file true (upload_file true true max d fs).0 name true
      ≡ read_file (latest name fs (Map.lookup name d)) true
unfolding upload_file download_file download_sane
upload_then_download max d fs name rows h n k =
    rw (n, download_sane, k) (ap (λ o. read_file o true) (upload_parts-lookup max d fs name rows h))
