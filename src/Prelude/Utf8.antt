-- ===== src/Prelude/Utf8.antt =====
-- `std::str::from_utf8(bytes).is_ok()` and `is_char_boundary`, after the UTF-8 table of the Unicode
-- standard.
use Prim.Native.Nat.{ℕ}
use mathlib.Core.Bool.{Bool, true, ◌&&◌, ◌||◌}
use mathlib.Core.List.{List, [], ◌∷◌}
use hermytt.Prelude.Tests.{leb, ltb, ◌==◌, if◌then◌else◌}

abbrev pub within : ℕ → ℕ → ℕ → Bool
within lo hi b = leb lo b && leb b hi

-- A byte 10xxxxxx.
abbrev pub is_continuation : ℕ → Bool
is_continuation b = within 0x80 0xBF b

-- The length that the first byte announces, and what the second byte may be.
second_ok : ℕ → ℕ → Bool
second_ok a b =
    if a == 0xE0
    then within 0xA0 0xBF b
    else if a == 0xED
    then within 0x80 0x9F b
    else if a == 0xF0
    then within 0x90 0xBF b
    else if a == 0xF4
    then within 0x80 0x8F b
    else is_continuation b

unfoldable pub is_utf8 : List ℕ → Bool
unfolding second_ok
is_utf8 [] = true
is_utf8 (a ∷ []) = ltb a 0x80
is_utf8 (a ∷ b ∷ []) = (ltb a 0x80 && ltb b 0x80) || (within 0xC2 0xDF a && is_continuation b)
is_utf8 (a ∷ b ∷ c ∷ []) =
    (ltb a 0x80 && is_utf8 (b ∷ c ∷ []))
    || ((within 0xC2 0xDF a && (is_continuation b && ltb c 0x80))
        || (within 0xE0 0xEF a && (second_ok a b && is_continuation c)))
is_utf8 (a ∷ b ∷ c ∷ d ∷ r) =
    let one = is_utf8 (b ∷ c ∷ d ∷ r) in
    let two = is_utf8 (c ∷ d ∷ r) in
    let three = is_utf8 (d ∷ r) in
    let four = is_utf8 r in
    if ltb a 0x80
    then one
    else if within 0xC2 0xDF a && is_continuation b
    then two
    else if within 0xE0 0xEF a && (second_ok a b && is_continuation c)
    then three
    else within 0xF0 0xF4 a && (second_ok a b && (is_continuation c && (is_continuation d && four)))
