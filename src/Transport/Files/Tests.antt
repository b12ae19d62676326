-- ===== src/Transport/Files/Tests.antt =====
-- Runs on concrete values: the file exchange.
use hermytt.Prelude.{◌≡◌, refl, true, List, [], ◌∷◌, none, some, arith}
use hermytt.Prelude.Text.{eq_text, codes, contains, starts_with}
use hermytt.Prelude.Map
use hermytt.Prelude.Map.{Map, UniqueKeys, keep_if}
use hermytt.Transport.Files.{
  Field, all_bytes, sanitize_filename, upload_file, upload_parts, upload_part, store_part,
  download_file, read_file,
}
use hermytt.Transport.Files.Bounds.{Sane, uploads, deletes, run, run-Sane}
use hermytt.Transport.Files.Transfer.{latest, upload_then_download}

abbrev form : List Field
form =
    record { file_name = some (codes "a"); bytes = some (codes "xyz"); written = all_bytes }
    ∷ record { file_name = some (codes "a"); bytes = some (codes "uv"); written = all_bytes }
    ∷ []

files_run-Sane_example : Sane 3 (run true 3 [] (uploads true form ∷ deletes (codes "a") true ∷ []))
unfolding Map.lookup
files_run-Sane_example =
    run-Sane true 3 [] (uploads true form ∷ deletes (codes "a") true ∷ [])
      (λ n c e. absurd (ground (arith, e)))

upload_then_download_example :
    download_file true (upload_file true true 3 [] form).0 (codes "a") true
    ≡ read_file (latest (codes "a") form none) true
unfolding eq_text upload_file upload_parts upload_part store_part sanitize_filename contains
    starts_with Map.lookup
upload_then_download_example =
    upload_then_download 3 [] form (codes "a") ((codes "a", 3) ∷ (codes "a", 2) ∷ []) refl refl refl
