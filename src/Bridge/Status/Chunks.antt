-- ===== src/Bridge/Status/Chunks.antt =====
-- `split_response` of pyttch-bridge/src/status.rs: the lengths of the messages.
use hermytt.Prelude.{
  ℕ, ◌+◌, ◌≤◌, ◌<◌, List, [], ◌∷◌, ◌++◌, if◌then◌else◌, arith, leb, ◌==◌, length, length-append,
  All, All-append, Bool-cases, inl, inr,
}
use hermytt.Prelude.Text.{Text, split, trim_end_by}
use hermytt.Bridge.Status.{
  Split, flush, separator, hard_cut, add_line, add_lines, add_paragraph, add_paragraphs,
  split_double, split_response, newline,
}

abbrev pub IsShort : ℕ → Text → Type 0
IsShort max c = (0 < length c) × (length c ≤ max)

abbrev AreShort : ℕ → List Text → Type 0
AreShort max = All (IsShort max)

abbrev Fits : ℕ → Split → Type 0
Fits max s = AreShort max s.chunks × (length s.current ≤ max)

push-AreShort :
    (max : ℕ) (cs : List Text) (c : Text)
    → AreShort max cs
    → IsShort max c
    → AreShort max (cs ++ c ∷ [])
push-AreShort max cs c h k = All-append (IsShort max) cs (c ∷ []) h (k, tt)

flush-AreShort : (max : ℕ) (s : Split) → Fits max s → AreShort max (flush s).chunks
flush-AreShort max s h = go s.current h.1
  where
    go :
        (t : Text)
        → length t ≤ max
        → AreShort max (flush (record { chunks = s.chunks; current = t })).chunks
    go [] k = h.0
    go (c ∷ cs) k = push-AreShort max s.chunks (c ∷ cs) h.0 (omega arith, k)

hard_cut-Fits :
    (max : ℕ) (chunks : List Text) (buf line : Text)
    → 0 < max
    → AreShort max chunks
    → length buf ≤ max
    → Fits max (hard_cut max chunks buf line)
unfolding hard_cut
hard_cut-Fits max chunks buf [] m h k = (h, k)
hard_cut-Fits max chunks buf (c ∷ cs) m h k = elim (Bool-cases (length buf == max)) [
  | inl t ↦ rw t (
      hard_cut-Fits max (chunks ++ buf ∷ []) (c ∷ []) cs m
        (push-AreShort max chunks buf h (ground arith)) (omega arith))
  | inr t ↦ rw t (
      hard_cut-Fits max chunks (buf ++ c ∷ []) cs m h
        (rw (length-append buf (c ∷ [])) (ground arith)))
]

add_line-Fits :
    (max : ℕ) (s : Split) (line : Text) → 0 < max → Fits max s → Fits max (add_line max s line)
unfolding add_line
add_line-Fits max s line m h =
    elim (Bool-cases
      (leb (length s.current + length (separator (newline ∷ []) s.current) + length line) max)) [
        | inl t ↦ rw t (
          h.0,
          rw
              (
                length-append (s.current ++ separator (newline ∷ []) s.current) line,
                length-append s.current (separator (newline ∷ []) s.current),
              )
              (ground arith),
        )
        | inr t ↦ rw t (elim (Bool-cases (leb (length line) max)) [
          | inl q ↦ rw q (flush-AreShort max s h, ground arith)
          | inr q ↦
              rw q (
                hard_cut-Fits max (flush s).chunks [] line m (flush-AreShort max s h) (omega arith))
        ])
      ]

add_lines-Fits :
    (max : ℕ) (s : Split) (lines : List Text)
    → 0 < max
    → Fits max s
    → Fits max (add_lines max s lines)
unfolding add_lines
add_lines-Fits max s [] m h = h
add_lines-Fits max s (l ∷ ls) m h =
    add_lines-Fits max (add_line max s l) ls m (add_line-Fits max s l m h)

flush-Fits : (max : ℕ) (s : Split) → Fits max s → Fits max (flush s)
flush-Fits max s h = (flush-AreShort max s h, ground arith)

add_paragraph-Fits :
    (max : ℕ) (s : Split) (p : Text) → 0 < max → Fits max s → Fits max (add_paragraph max s p)
unfolding add_paragraph
add_paragraph-Fits max s p m h =
    go (trim_end_by (λ c. c == newline) p) (separator (newline ∷ newline ∷ []) s.current)
  where
    go :
        (para sep : Text)
        → Fits max (
            if leb (length s.current + length sep + length para) max
            then record s { current = s.current ++ sep ++ para }
            else if leb (length para) max
            then record (flush s) { current = para }
            else add_lines max (flush s) (split newline para))
    go para sep = elim (Bool-cases (leb (length s.current + length sep + length para) max)) [
      | inl t ↦ rw t (
        h.0,
        rw (length-append (s.current ++ sep) para, length-append s.current sep) (ground arith),
      )
      | inr t ↦ rw t (elim (Bool-cases (leb (length para) max)) [
        | inl q ↦ rw q (flush-AreShort max s h, ground arith)
        | inr q ↦ rw q (add_lines-Fits max (flush s) (split newline para) m (flush-Fits max s h))
      ])
    ]

add_paragraphs-Fits :
    (max : ℕ) (s : Split) (ps : List Text)
    → 0 < max
    → Fits max s
    → Fits max (add_paragraphs max s ps)
unfolding add_paragraphs
add_paragraphs-Fits max s [] m h = h
add_paragraphs-Fits max s (p ∷ ps) m h =
    add_paragraphs-Fits max (add_paragraph max s p) ps m (add_paragraph-Fits max s p m h)

-- Every message that an answer is divided into has at least one character and at most `max` of
-- them, when `max` is not 0.
pub split_response-IsShort :
    (text : Text) (max : ℕ) → 0 < max → All (IsShort max) (split_response text max)
unfolding split_response
split_response-IsShort text max m =
    flush-AreShort max _ (add_paragraphs-Fits max _ (split_double [] text) m (tt, omega arith))
