-- ===== src/Transport/Files/Bounds.antt =====
-- The file exchange of hermytt-transport/src/rest.rs: names and sizes in the directory.
use hermytt.Prelude.{
  ℕ, ◌≤◌, ◌≡◌, refl, Bool, true, false, List, [], ◌∷◌, Option, none, some, arith, Bool-cases, inl,
  inr, ltb, length, take, length-take,
}
use hermytt.Prelude.Text.{Text, eq_text, eq_text_iff}
use hermytt.Prelude.Map
use hermytt.Prelude.Map.{Map, lookup-insert, lookup-remove}
use hermytt.Transport.Files.{
  Directory, Field, Written, all_bytes, some_bytes, not_opened, Uploaded, Status, saved, refused,
  sanitize_filename, upload_file, upload_parts, upload_part, store_part, delete_file, delete_sane,
  row_name, write, after_part, fate,
}

-- Every file has a name that passes the check and no more bytes than the limit.
abbrev pub Sane : ℕ → Directory → Type 0
Sane max d =
    (name content : Text)
    → Map.lookup name d ≡ some content
    → (sanitize_filename name ≡ some name) × (length content ≤ max)

insert-Sane :
    (max : ℕ) (d : Directory) (name content : Text)
    → sanitize_filename name ≡ some name
    → length content ≤ max
    → Sane max d
    → Sane max (Map.insert name content d)
insert-Sane max d name content n l v other content' =
    rw lookup-insert (elim (Bool-cases (eq_text name other)) [
      | inl t ↦ rw t (λ e. (ground (arith, eq_text_iff name other, n), ground arith))
      | inr t ↦ rw t (v other content')
    ])

sanitize-same : (name n : Text) → sanitize_filename name ≡ some n → sanitize_filename n ≡ some n
unfolding sanitize_filename
sanitize-same name n h = ground (arith, h)

write-Sane :
    (max : ℕ) (d : Directory) (name content : Text) (w : Written)
    → sanitize_filename name ≡ some name
    → length content ≤ max
    → Sane max d
    → Sane max (write d name content w)
write-Sane max d name content all_bytes n l v = insert-Sane max d name content n l v
write-Sane max d name content (some_bytes k) n l v =
    insert-Sane max d name (take k content) n (omega (arith, length-take k content)) v
write-Sane max d name content not_opened n l v = v

store_part-Sane :
    (max : ℕ) (d : Directory) (name : Text) (bytes : Option Text) (w : Written)
    → sanitize_filename name ≡ some name
    → Sane max d
    → Sane max (store_part max d name bytes w).0
unfolding store_part
store_part-Sane max d name none w n v = v
store_part-Sane max d name (some content) w n v = elim (Bool-cases (ltb max (length content))) [
  | inl t ↦ rw t v
  | inr t ↦ rw t (write-Sane max d name content (fate name w) n (ground arith) v)
]

upload_part-Sane :
    (max : ℕ) (d : Directory) (f : Field) (o : Option Text)
    → sanitize_filename (row_name f) ≡ o
    → Sane max d
    → Sane max (upload_part max d f o).0
unfolding upload_part
upload_part-Sane max d f none e v = v
upload_part-Sane max d f (some name) e v =
    store_part-Sane max d name f.bytes f.written (sanitize-same (row_name f) name e) v

after_part-Sane :
    (max : ℕ) (rest : Directory × Uploaded) (d : Directory) (name : Text) (size : ℕ)
    (o : Option Status)
    → Sane max rest.0
    → Sane max d
    → Sane max (after_part rest d name size o).0
after_part-Sane max (e, saved rows) d name size none r v = r
after_part-Sane max (e, refused s) d name size none r v = r
after_part-Sane max rest d name size (some status) r v = v

upload_parts-Sane :
    (max : ℕ) (d : Directory) (fs : List Field) → Sane max d → Sane max (upload_parts max d fs).0
unfolding upload_parts
upload_parts-Sane max d [] v = v
upload_parts-Sane max d (f ∷ fs) v =
    let d' : Directory × (Option Status) = upload_part max d f (sanitize_filename (row_name f)) in
    let v' : Sane max d'.0 = upload_part-Sane max d f (sanitize_filename (row_name f)) refl v in
    after_part-Sane max (upload_parts max d'.0 fs) d'.0 (row_name f) _ d'.1
      (upload_parts-Sane max d'.0 fs v') v'

upload_file-Sane :
    (configured created : Bool) (max : ℕ) (d : Directory) (fs : List Field)
    → Sane max d
    → Sane max (upload_file configured created max d fs).0
unfolding upload_file
upload_file-Sane true true max d fs v = upload_parts-Sane max d fs v
upload_file-Sane true false max d fs v = v
upload_file-Sane false created max d fs v = v

remove-Sane : (max : ℕ) (d : Directory) (name : Text) → Sane max d → Sane max (Map.remove name d)
remove-Sane max d name v other content = rw lookup-remove (ground (arith, v other content))

delete_sane-Sane :
    (max : ℕ) (d : Directory) (o : Option Text) (removable : Bool)
    → Sane max d
    → Sane max (delete_sane d o removable).0
unfolding delete_sane
delete_sane-Sane max d none removable v = v
delete_sane-Sane max d (some name) removable v = ground (arith, remove-Sane max d name v, v)

delete_file-Sane :
    (configured : Bool) (max : ℕ) (d : Directory) (name : Text) (removable : Bool)
    → Sane max d
    → Sane max (delete_file configured d name removable).0
unfolding delete_file
delete_file-Sane true max d name removable v =
    delete_sane-Sane max d (sanitize_filename name) removable v
delete_file-Sane false max d name removable v = v

-- The requests that change the directory, with what the file system answers.
pub data Call : Type 0 where
  uploads : Bool → List Field → Call
  deletes : Text → Bool → Call

pub run : Bool → ℕ → Directory → List Call → Directory
run configured max d [] = d
run configured max d (uploads created fs ∷ cs) =
    run configured max (upload_file configured created max d fs).0 cs
run configured max d (deletes name removable ∷ cs) =
    run configured max (delete_file configured d name removable).0 cs

-- Through any uploads and deletions, those that fail on the way included, every file of the
-- directory has a name that passes the check and no more bytes than the limit, if this was so at
-- the start.
pub run-Sane :
    (configured : Bool) (max : ℕ) (d : Directory) (cs : List Call)
    → Sane max d
    → Sane max (run configured max d cs)
unfolding run
run-Sane configured max d [] v = v
run-Sane configured max d (uploads created fs ∷ cs) v =
    run-Sane configured max (upload_file configured created max d fs).0 cs
      (upload_file-Sane configured created max d fs v)
run-Sane configured max d (deletes name removable ∷ cs) v =
    run-Sane configured max (delete_file configured d name removable).0 cs
      (delete_file-Sane configured max d name removable v)
