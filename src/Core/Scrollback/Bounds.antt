-- ===== src/Core/Scrollback/Bounds.antt =====
-- `ScrollbackBuffer` of hermytt-core/src/session.rs: the number of its lines, and a stored line.
use hermytt.Prelude.{
  ℕ, zero, suc, ◌≤◌, ◌<◌, ◌≡◌, refl, true, false, List, [], ◌∷◌, ◌++◌, length, length-append,
  length-take, ltb, ◌==◌, take, arith, ltb→lt, Bool-cases, inl, inr,
}
use hermytt.Prelude.Text.{Text, split, split_from}
use hermytt.Core.Scrollback.{
  ScrollbackBuffer, clip, push_line, push_lines, push, len, is_char_boundary, floor_char_boundary,
  max_line_len,
}

push_line-len :
    (capacity bound : ℕ) (lines : List Text) (l : Text)
    → capacity ≤ bound
    → 1 ≤ bound
    → length lines ≤ bound
    → (length (push_line capacity lines l) ≤ bound) × (1 ≤ length (push_line capacity lines l))
unfolding push_line
push_line-len capacity bound [] l h pos room = ground arith
push_line-len capacity bound (x ∷ xs) l h pos room =
    ground (arith, length-append xs (clip l ∷ []), length-append (x ∷ xs) (clip l ∷ []))

push_lines-len :
    (capacity bound : ℕ) (lines ls : List Text)
    → capacity ≤ bound
    → 1 ≤ bound
    → length lines ≤ bound
    → length (push_lines capacity lines ls) ≤ bound
unfolding push_lines
push_lines-len capacity bound lines [] h pos room = room
push_lines-len capacity bound lines (l ∷ ls) h pos room =
    push_lines-len capacity bound (push_line capacity lines l) ls h pos
      (push_line-len capacity bound lines l h pos room).0

push_lines_zero : (lines ls : List Text) → length lines ≡ 1 → length (push_lines 0 lines ls) ≡ 1
unfolding push_lines push_line
push_lines_zero lines [] h = h
push_lines_zero [] (l ∷ ls) h = absurd (omega arith)
push_lines_zero (x ∷ []) (l ∷ ls) h = push_lines_zero (clip l ∷ []) ls refl
push_lines_zero (x ∷ y ∷ xs) (l ∷ ls) h = absurd (omega arith)

push_lines_zero_cons :
    (lines : List Text) (l : Text) (ls : List Text)
    → length lines ≤ 1
    → length (push_lines 0 lines (l ∷ ls)) ≡ 1
unfolding push_lines push_line
push_lines_zero_cons [] l ls h = push_lines_zero (clip l ∷ []) ls refl
push_lines_zero_cons (x ∷ []) l ls h = push_lines_zero (clip l ∷ []) ls refl
push_lines_zero_cons (x ∷ y ∷ xs) l ls h = absurd (omega arith)

split_from_cons :
    (sep : ℕ) (cur s : Text) → (p : Text) × (ps : List Text) × (split_from sep cur s ≡ p ∷ ps)
unfolding split_from
split_from_cons sep cur [] = (cur, [], refl)
split_from_cons sep cur (c ∷ s) =
    let (p, ps, e) = split_from_cons sep (cur ++ c ∷ []) s in
    elim (Bool-cases (c == sep)) [
      | inl t ↦ (cur, split_from sep [] s, rw t)
      | inr t ↦ (p, ps, rw t e)
    ]

-- Whatever is pushed, a buffer of capacity 0 that holds at most one line then holds exactly one.
pub push_capacity_zero :
    (b : ScrollbackBuffer) (t : Text) → b.capacity ≡ 0 → len b ≤ 1 → len (push b t) ≡ 1
unfolding len push split
push_capacity_zero b t e h =
    let (p, ps, q) = split_from_cons b'\n' [] t in rw (e, q) (push_lines_zero_cons b.lines p ps h)

-- A push leaves the capacity alone and never more lines than the capacity (and than one, if the
-- capacity is 0), given that there were not more before.
pub len-push :
    (b : ScrollbackBuffer) (t : Text) (bound : ℕ)
    → b.capacity ≤ bound
    → 1 ≤ bound
    → len b ≤ bound
    → (len (push b t) ≤ bound) × ((push b t).capacity ≡ b.capacity)
unfolding len push
len-push b t bound h pos room =
    (push_lines-len b.capacity bound b.lines (split b'\n' t) h pos room, refl)

floor_boundary :
    (s : Text) (i : ℕ)
    → (floor_char_boundary s i ≤ i)
      × (is_char_boundary s (floor_char_boundary s i) ≡ true)
      × ((j : ℕ) → floor_char_boundary s i < j → j ≤ i → is_char_boundary s j ≡ false)
unfolding floor_char_boundary
floor_boundary s zero = (omega arith, start s, λ j h k. absurd (omega arith))
  where
    start : (s : Text) → is_char_boundary s 0 ≡ true
    start [] = refl
    start (c ∷ s) = refl
floor_boundary s (suc i) =
    let (le, at, above) = floor_boundary s i in
    elim (Bool-cases (is_char_boundary s (suc i))) [
      | inl t ↦ rw t (omega arith, t, λ j h k. absurd (omega arith))
      | inr t ↦ rw t (omega arith, at, λ j h k. ground (arith, above j h))
    ]

-- A stored line is a beginning of the line, at most 4096 bytes long, that does not end inside a
-- character: it ends at the last character boundary at or before byte 4096, and a line of up to
-- 4096 bytes is stored whole.
pub clip-boundary :
    (line : Text)
    → (n : ℕ) × (clip line ≡ take n line)
      × (n ≤ max_line_len)
      × (length (clip line) ≤ max_line_len)
      × (length line ≤ max_line_len → n ≡ length line)
      × (max_line_len < length line
          → (is_char_boundary line n ≡ true)
            × ((j : ℕ) → n < j → j ≤ max_line_len → is_char_boundary line j ≡ false))
unfolding clip
clip-boundary line = elim (Bool-cases (ltb max_line_len (length line))) [
  | inl t ↦
      let (le, at, above) = floor_boundary line max_line_len in
      (
        floor_char_boundary line max_line_len,
        rw t,
        le,
        rw t (omega (arith, length-take (floor_char_boundary line max_line_len) line)),
        λ h. absurd (omega (arith, ltb→lt max_line_len (length line) t)),
        λ h. (at, above),
      )
  | inr t ↦ (
    length line,
    rw t,
    ground arith,
    rw t (ground (arith, length-take (length line) line)),
    λ h. refl,
    λ h. absurd (ground arith),
  )
]
