-- ===== src/Transport/Recordings/Names.antt =====
-- hermytt-transport/src/rest.rs: the name under which a recording is made, and its download.
use hermytt.Prelude.{
  ℕ, ◌≡◌, refl, ap, ◌∙◌, Bool, true, false, ◌||◌, ◌&&◌, [], ◌∷◌, ◌++◌, some, if◌then◌else◌, All,
  arith, any, ◌==◌, leb,
}
use hermytt.Prelude.Text.{Text, codes, contains, starts_with, eq_text_refl}
use hermytt.Prelude.Map
use hermytt.Prelude.Map.{lookup-insert}
use hermytt.Transport.Files.{Directory}
use hermytt.Transport.Recordings.{recording_name, download_recording, file, bad_request, contents}

abbrev pub AreDigits : Text → Type 0
AreDigits = All (λ c. (leb b'0' c && leb c b'9') ≡ true)

-- A session's id would lead out of the directory.
abbrev pub leads_out : Text → Bool
leads_out id = contains (codes "..") id || (any (λ c. c == b'/') id || any (λ c. c == b'\\') id)

any-append : (p : ℕ → Bool) (s t : Text) → any p (s ++ t) ≡ (any p s || any p t)
any-append p [] t = refl
any-append p (c ∷ s) t = ground (arith, any-append p s t)

any-digits :
    (x : ℕ) (ts : Text)
    → (leb b'0' x && leb x b'9') ≡ false
    → (any (λ c. c == x) (codes ".cast")) ≡ false
    → AreDigits ts
    → any (λ c. c == x) (ts ++ codes ".cast") ≡ false
any-digits x [] h k d = k
any-digits x (c ∷ ts) h k d = ground (arith, any-digits x ts h k d.1, d.0, h)

digits-no_dots : (ts : Text) → AreDigits ts → contains (codes "..") (ts ++ codes ".cast") ≡ false
unfolding contains starts_with
digits-no_dots [] d = refl
digits-no_dots (c ∷ ts) d =
    let dot : (b'.' == c) ≡ false = ground (arith, d.0) in rw (dot, digits-no_dots ts d.1) refl

dots-dash :
    (s r : Text)
    → contains (codes "..") (s ++ b'-' ∷ r) ≡ (contains (codes "..") s || contains (codes "..") r)
unfolding contains starts_with
dots-dash [] r = refl
dots-dash (c ∷ []) r = ground arith
dots-dash (c ∷ d ∷ s) r = ground (arith, dots-dash (d ∷ s) r)

leads_out-name : (id ts : Text) → AreDigits ts → leads_out (recording_name id ts) ≡ leads_out id
leads_out-name id ts d =
    let rest : Text = b'-' ∷ (ts ++ codes ".cast") in
    rw
      (
        dots-dash id (ts ++ codes ".cast"),
        digits-no_dots ts d,
        any-append (λ c. c == b'/') id rest,
        any-append (λ c. c == b'\\') id rest,
        any-digits b'/' ts refl refl d,
        any-digits b'\\' ts refl refl d,
      )
      (ground arith)

-- A recording that is in the directory and can be read comes back, under the name that it was
-- started with, exactly if the id of its session has no two dots in a row and no slash or backslash;
-- for any other id the request is refused.
pub download-name :
    (dir : Directory) (id ts bytes : Text)
    → AreDigits ts
    → download_recording
        (some (Map.insert (recording_name id ts) bytes dir))
        (recording_name id ts)
        true
      ≡ (if leads_out id then bad_request else file bytes)
unfolding download_recording
download-name dir id ts bytes d =
    ap (λ b. if b then bad_request else contents true (Map.lookup name (Map.insert name bytes dir)))
      (leads_out-name id ts d)
    ∙ rw (lookup-insert, eq_text_refl name) refl
  where
    name : Text
    name = recording_name id ts
