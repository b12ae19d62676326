-- ===== src/Bridge/Urls.antt =====
-- pyttch-bridge/src/bot.rs: what stands in a URL.
use hermytt.Prelude.{
  ℕ, ◌+◌, ◌-◌, ◌*◌, ◌/◌, ◌%◌, ◌<◌, ◌≡◌, refl, ap, ◌∙◌, Bool, true, false, ◌||◌, [], ◌∷◌,
  if◌then◌else◌, ltb, leb, ◌==◌, All, arith, Bool-cases, inl, inr,
}
use hermytt.Prelude.Text.{Text, is_alphanumeric}

abbrev upper_hex : ℕ → ℕ
upper_hex d = if ltb d 10 then b'0' + d else b'A' + (d - 10)

abbrev is_unreserved : ℕ → Bool
is_unreserved b = is_alphanumeric b || (b == b'-' || (b == b'.' || (b == b'_' || b == b'~')))

-- `urlencode`, of bytes.
unfoldable pub urlencode : Text → Text
urlencode [] = []
urlencode (b ∷ bs) =
    if is_unreserved b
    then b ∷ urlencode bs
    else b'%' ∷ upper_hex (b / 16) ∷ upper_hex (b % 16) ∷ urlencode bs

-- The value of a hexadecimal digit, and the decoding that RFC 3986 describes.
abbrev hex_value : ℕ → ℕ
hex_value c = if leb c b'9' then c - b'0' else c - b'A' + 10

unfoldable pub decode : Text → Text
decode [] = []
decode (c ∷ []) = c ∷ []
decode (c ∷ d ∷ []) = c ∷ decode (d ∷ [])
decode (c ∷ d ∷ e ∷ cs) =
    let coded = (16 * hex_value d + hex_value e) ∷ decode cs in
    let plain = c ∷ decode (d ∷ e ∷ cs) in if c == b'%' then coded else plain

-- A character is one of those that stand for themselves in a path segment, or a percent sign.
abbrev pub IsSegmentChar : ℕ → Type 0
IsSegmentChar c = (is_unreserved c || c == b'%') ≡ true

decode-plain : (b : ℕ) (cs : Text) → (b == b'%') ≡ false → decode (b ∷ cs) ≡ b ∷ decode cs
unfolding decode
decode-plain b [] h = refl
decode-plain b (c ∷ []) h = refl
decode-plain b (c ∷ d ∷ cs) h = rw h refl

hex-value : (d : ℕ) → d < 16 → hex_value (upper_hex d) ≡ d
hex-value d h = ground arith

digit : (d : ℕ) → d < 16 → IsSegmentChar (upper_hex d)
digit d h = ground arith

byte : (b : ℕ) → b < 256 → 16 * hex_value (upper_hex (b / 16)) + hex_value (upper_hex (b % 16)) ≡ b
byte b h =
    rw (hex-value (b / 16) (omega (arith, h)), hex-value (b % 16) (omega arith)) (omega arith)

-- Every text of bytes is encoded to unreserved characters and percent signs alone, so that it stays
-- one segment of a path, and percent-decoding gives it back.
pub urlencode_round_trip :
    (s : Text) → All (λ b. b < 256) s → (decode (urlencode s) ≡ s) × All IsSegmentChar (urlencode s)
unfolding urlencode decode
urlencode_round_trip [] h = (refl, tt)
urlencode_round_trip (b ∷ bs) h =
    let (back, fine) = urlencode_round_trip bs h.1 in
    elim (Bool-cases (is_unreserved b)) [
      | inl t ↦ rw t (
        decode-plain b (urlencode bs) (ground (arith, t)) ∙ ap (λ w. b ∷ w) back,
        (ground (arith, t), fine),
      )
      | inr t ↦ rw t (
        ap (λ w. w ∷ decode (urlencode bs)) (byte b h.0) ∙ ap (λ w. b ∷ w) back,
        (refl, (digit (b / 16) (omega (arith, h.0)), (digit (b % 16) (omega arith), fine))),
      )
    ]
