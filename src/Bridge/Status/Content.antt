-- ===== src/Bridge/Status/Content.antt =====
-- `split_response` of pyttch-bridge/src/status.rs: the characters of the messages.
use hermytt.Prelude.{
  ℕ, ◌+◌, ◌≡◌, refl, sym, ap, ◌∙◌, not, ◌&&◌, List, [], ◌∷◌, ◌++◌, if◌then◌else◌, arith, leb, ◌==◌,
  length, keep, keep-append, Bool-cases, inl, inr, append_assoc, append-nil,
}
use mathlib.Core.List.{reverse, reverse-reverse, reverse-cons}
use hermytt.Prelude.Text.{Text, split, split_from, trim_end_by, trim_start_by}
use hermytt.Bridge.Status.{
  Split, flush, separator, hard_cut, add_line, add_lines, add_paragraph, add_paragraphs,
  split_double, split_response, newline,
}

-- The characters other than newlines, of a text and of several.
abbrev pub ink : Text → Text
ink = keep (λ c. not (c == newline))

abbrev pub inks : List Text → Text
inks [] = []
inks (t ∷ ts) = ink t ++ inks ts

inks-append : (xs ys : List Text) → inks (xs ++ ys) ≡ inks xs ++ inks ys
inks-append [] ys = refl
inks-append (x ∷ xs) ys = rw (inks-append xs ys) (sym (append_assoc (ink x) (inks xs) (inks ys)))

abbrev content : Split → Text
content s = inks s.chunks ++ ink s.current

ink-append : (xs ys : Text) → ink (xs ++ ys) ≡ ink xs ++ ink ys
ink-append = keep-append _

ink-reverse : (xs : Text) → ink (reverse xs) ≡ reverse (ink xs)
ink-reverse [] = refl
ink-reverse (x ∷ xs) =
    rw (reverse-cons x xs, ink-append (reverse xs) (x ∷ []), ink-reverse xs)
      (elim (Bool-cases (x == newline)) [
        | inl t ↦ rw t (append-nil (reverse (ink xs)))
        | inr t ↦ rw t (sym (reverse-cons x (ink xs)))
      ])

ink-trim_start : (xs : Text) → ink (trim_start_by (λ c. c == newline) xs) ≡ ink xs
unfolding trim_start_by
ink-trim_start [] = refl
ink-trim_start (x ∷ xs) = ground (arith, ink-trim_start xs)

ink-trim_end : (xs : Text) → ink (trim_end_by (λ c. c == newline) xs) ≡ ink xs
unfolding trim_end_by
ink-trim_end xs =
    rw
      (
        ink-reverse (trim_start_by (λ c. c == newline) (reverse xs)),
        ink-trim_start (reverse xs),
        ink-reverse xs,
      )
      (reverse-reverse (ink xs))

inks-split_from : (cur s : Text) → inks (split_from newline cur s) ≡ ink cur ++ ink s
unfolding split_from
inks-split_from cur [] = refl
inks-split_from cur (c ∷ cs) = elim (Bool-cases (c == newline)) [
  | inl t ↦ rw (t, inks-split_from [] cs) refl
  | inr t ↦
      rw (t, inks-split_from (cur ++ c ∷ []) cs, ink-append cur (c ∷ []), t)
        (append_assoc (ink cur) (c ∷ []) (ink cs))
]

inks-split : (s : Text) → inks (split newline s) ≡ ink s
unfolding split
inks-split s = inks-split_from [] s

inks-split_double : (cur s : Text) → inks (split_double cur s) ≡ ink cur ++ ink s
unfolding split_double
inks-split_double cur [] = refl
inks-split_double cur (c ∷ []) = rw (ink-append cur (c ∷ [])) (append-nil (ink cur ++ ink (c ∷ [])))
inks-split_double cur (c ∷ d ∷ cs) = elim (Bool-cases (c == newline && d == newline)) [
  | inl t ↦ rw (t, inks-split_double [] cs) (ground arith)
  | inr t ↦
      rw (t, inks-split_double (cur ++ c ∷ []) (d ∷ cs), ink-append cur (c ∷ []))
        (append_assoc (ink cur) (ink (c ∷ [])) (ink (d ∷ cs))
          ∙ ap (λ w. ink cur ++ w) (sym (ink-append (c ∷ []) (d ∷ cs))))
]

content-flush : (s : Split) → content (flush s) ≡ content s
content-flush s = go s.current
  where
    go :
        (t : Text)
        → content (flush (record { chunks = s.chunks; current = t })) ≡ inks s.chunks ++ ink t
    go [] = refl
    go (c ∷ cs) =
        rw (inks-append s.chunks ((c ∷ cs) ∷ []))
          (append-nil _ ∙ ap (λ w. inks s.chunks ++ w) (append-nil (ink (c ∷ cs))))

-- The growing chunk with a separator and more.
content-grown :
    (s : Split) (sep t : Text)
    → ink sep ≡ []
    → content (record s { current = s.current ++ sep ++ t }) ≡ content s ++ ink t
content-grown s sep t h =
    rw (ink-append (s.current ++ sep) t, ink-append s.current sep, h, append-nil (ink s.current))
      (sym (append_assoc (inks s.chunks) (ink s.current) (ink t)))

flushed : (s : Split) → (flush s).current ≡ []
flushed s = go s.current
  where
    go : (t : Text) → (flush (record { chunks = s.chunks; current = t })).current ≡ []
    go [] = refl
    go (c ∷ cs) = refl

inks-flush : (s : Split) → inks (flush s).chunks ≡ content s
inks-flush s =
    sym (append-nil (inks (flush s).chunks))
    ∙ sym (ap (λ w. inks (flush s).chunks ++ ink w) (flushed s))
    ∙ content-flush s

content-hard_cut :
    (max : ℕ) (chunks : List Text) (buf line : Text)
    → content (hard_cut max chunks buf line) ≡ inks chunks ++ ink buf ++ ink line
unfolding hard_cut
content-hard_cut max chunks buf [] = sym (append-nil _)
content-hard_cut max chunks buf (c ∷ cs) = elim (Bool-cases (length buf == max)) [
  | inl t ↦
      rw
        (
          t,
          content-hard_cut max (chunks ++ buf ∷ []) (c ∷ []) cs,
          inks-append chunks (buf ∷ []),
          append-nil (ink buf),
        )
        (append_assoc (inks chunks ++ ink buf) (ink (c ∷ [])) (ink cs)
          ∙ ap (λ w. inks chunks ++ ink buf ++ w) (sym (ink-append (c ∷ []) cs)))
  | inr t ↦
      rw (t, content-hard_cut max chunks (buf ++ c ∷ []) cs, ink-append buf (c ∷ []))
        (ap (λ w. w ++ ink cs) (sym (append_assoc (inks chunks) (ink buf) (ink (c ∷ []))))
          ∙ append_assoc (inks chunks ++ ink buf) (ink (c ∷ [])) (ink cs)
          ∙ ap (λ w. inks chunks ++ ink buf ++ w) (sym (ink-append (c ∷ []) cs)))
]

ink-separator : (sep current : Text) → ink sep ≡ [] → ink (separator sep current) ≡ []
ink-separator sep [] h = refl
ink-separator sep (c ∷ cs) h = h

content-line :
    (max : ℕ) (s : Split) (line : Text) → content (add_line max s line) ≡ content s ++ ink line
unfolding add_line
content-line max s line =
    elim (Bool-cases
      (leb (length s.current + length (separator (newline ∷ []) s.current) + length line) max)) [
        | inl t ↦ rw t (content-grown s _ line (ink-separator (newline ∷ []) s.current refl))
        | inr t ↦ rw t (elim (Bool-cases (leb (length line) max)) [
          | inl q ↦ rw (q, inks-flush s) refl
          | inr q ↦
              rw (q, content-hard_cut max (flush s).chunks [] line, inks-flush s)
                (ap (λ w. w ++ ink line) (append-nil (content s)))
        ])
      ]

content-lines :
    (max : ℕ) (s : Split) (lines : List Text)
    → content (add_lines max s lines) ≡ content s ++ inks lines
unfolding add_lines
content-lines max s [] = sym (append-nil _)
content-lines max s (l ∷ ls) =
    rw (content-lines max (add_line max s l) ls, content-line max s l)
      (append_assoc (content s) (ink l) (inks ls))

content-paragraph :
    (max : ℕ) (s : Split) (p : Text) → content (add_paragraph max s p) ≡ content s ++ ink p
unfolding add_paragraph
content-paragraph max s p =
    go (trim_end_by (λ c. c == newline) p) ∙ ap (λ w. content s ++ w) (ink-trim_end p)
  where
    go :
        (para : Text)
        → content (
            if leb
              (length s.current
                + length (separator (newline ∷ newline ∷ []) s.current)
                + length para)
              max
            then record s {
              current = s.current ++ separator (newline ∷ newline ∷ []) s.current ++ para;
            }
            else if leb (length para) max
            then record (flush s) { current = para }
            else add_lines max (flush s) (split newline para))
          ≡ content s ++ ink para
    go para =
        elim (Bool-cases (
          leb
            (length s.current + length (separator (newline ∷ newline ∷ []) s.current) + length para)
            max)) [
              | inl t ↦
                  rw t
                    (content-grown s _ para (ink-separator (newline ∷ newline ∷ []) s.current refl))
              | inr t ↦ rw t (elim (Bool-cases (leb (length para) max)) [
                | inl q ↦ rw (q, inks-flush s) refl
                | inr q ↦
                    rw (q, content-lines max (flush s) (split newline para), content-flush s)
                      (ap (λ w. content s ++ w) (inks-split para))
              ])
            ]

content-paragraphs :
    (max : ℕ) (s : Split) (ps : List Text)
    → content (add_paragraphs max s ps) ≡ content s ++ inks ps
unfolding add_paragraphs
content-paragraphs max s [] = sym (append-nil _)
content-paragraphs max s (p ∷ ps) =
    rw (content-paragraphs max (add_paragraph max s p) ps, content-paragraph max s p)
      (append_assoc (content s) (ink p) (inks ps))

-- The messages that an answer is divided into hold, in order, every character of the answer other
-- than its newlines, and no others but newlines.
pub split_response-ink : (text : Text) (max : ℕ) → inks (split_response text max) ≡ ink text
unfolding split_response
split_response-ink text max =
    inks-flush (add_paragraphs max (record { chunks = []; current = [] }) (split_double [] text))
    ∙ content-paragraphs max (record { chunks = []; current = [] }) (split_double [] text)
    ∙ inks-split_double [] text
