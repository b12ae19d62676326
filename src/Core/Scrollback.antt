-- ===== src/Core/Scrollback.antt =====
-- hermytt-core/src/session.rs: `ScrollbackBuffer`, over the bytes of a text.
pub mod Laws
pub mod Bounds
pub mod Tests
use hermytt.Prelude.{
  ℕ, zero, suc, ◌+◌, Bool, true, false, not, List, [], ◌∷◌, ◌++◌, length, leb, ltb, take,
  if◌then◌else◌,
}
use hermytt.Prelude.Text.{Text, split}
use hermytt.Prelude.Utf8.{is_continuation}

abbrev pub max_line_len : ℕ
max_line_len = 4096

pub record ScrollbackBuffer : Type 0 where
  pub lines : List Text
  pub capacity : ℕ

pub new : ℕ → ScrollbackBuffer
new capacity = record { lines = []; capacity = capacity }

-- `is_char_boundary(i)`: the start, the end, or before a byte that begins a character.
unfoldable pub is_char_boundary : Text → ℕ → Bool
is_char_boundary s zero = true
is_char_boundary [] (suc i) = false
is_char_boundary (c ∷ []) (suc zero) = true
is_char_boundary (c ∷ d ∷ s) (suc zero) = not (is_continuation d)
is_char_boundary (c ∷ s) (suc (suc i)) = is_char_boundary s (suc i)

-- `floor_char_boundary(i)` below the length: the nearest boundary at or before `i`.
unfoldable pub floor_char_boundary : Text → ℕ → ℕ
unfolding is_char_boundary
floor_char_boundary s zero = zero
floor_char_boundary s (suc i) =
    let before = floor_char_boundary s i in if is_char_boundary s (suc i) then suc i else before

-- The part of a line that is stored, `&line[..end]`.
unfoldable pub clip : Text → Text
unfolding floor_char_boundary
clip line =
    take
      (if ltb max_line_len (length line)
        then floor_char_boundary line max_line_len
        else length line)
      line

abbrev pub pop_front : List Text → List Text
pop_front [] = []
pop_front (l ∷ ls) = ls

-- One round of the loop of `push`.
unfoldable pub push_line : ℕ → List Text → Text → List Text
push_line capacity lines line =
    (if leb capacity (length lines) then pop_front lines else lines) ++ clip line ∷ []

unfoldable pub push_lines : ℕ → List Text → List Text → List Text
unfolding push_line
push_lines capacity lines [] = lines
push_lines capacity lines (l ∷ ls) = push_lines capacity (push_line capacity lines l) ls

unfoldable pub push : ScrollbackBuffer → Text → ScrollbackBuffer
unfolding push_lines
push b text = record b { lines = push_lines b.capacity b.lines (split b'\n' text) }

pub get_all : ScrollbackBuffer → List Text
get_all b = b.lines

pub len : ScrollbackBuffer → ℕ
len b = length b.lines
