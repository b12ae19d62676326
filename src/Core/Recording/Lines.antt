-- ===== src/Core/Recording/Lines.antt =====
-- hermytt-core/src/recording.rs: the lines of a recording, and the end of a recorder.
use hermytt.Prelude.{
  ◌≡◌, refl, sym, ap, ◌∙◌, Bool, true, false, List, [], ◌∷◌, ◌++◌, Option, none, some,
  if◌then◌else◌, is_some, All, arith, Bool-cases, inl, inr, append_assoc, append-nil, All-append,
}
use hermytt.Prelude.Text.{Text, eq_text, split, join}
use hermytt.Prelude.Pieces.{Lacks, split-join}
use hermytt.Core.Sessions.{pty_exit_sentinel}
use hermytt.Core.Recording.{
  AsciicastEvent, event_at, done, Seen, stop, lagged, closed, chunk, newline, append_line,
  record_loop, start_recording,
}

-- A line of JSON has no line break.
abbrev pub IsLine : Text → Type 0
IsLine = Lacks 10

abbrev LineOption : Option Text → Type 0
LineOption none = Unit
LineOption (some t) = IsLine t

abbrev pub IsOneLined : (AsciicastEvent → Option Text) → Type 0
IsOneLined event_json = (e : AsciicastEvent) → LineOption (event_json e)

-- The disk takes every write.
abbrev pub Written : Seen → Type 0
Written (chunk time bytes w v) = (w ≡ done) × (v ≡ done)
Written stop = Unit
Written lagged = Unit
Written closed = Unit

-- The event ends a recording by itself.
abbrev pub is_last : Seen → Bool
is_last stop = true
is_last closed = true
is_last lagged = false
is_last (chunk time bytes w v) = eq_text bytes pty_exit_sentinel

abbrev pub with_line : Option Text → List Text → List Text
with_line none ls = ls
with_line (some l) ls = l ∷ ls

abbrev line_breaks : List Text → Text
line_breaks [] = []
line_breaks (l ∷ ls) = l ++ (newline ++ line_breaks ls)

join-line_breaks :
    (l : Text) (ls : List Text)
    → join newline (l ∷ (ls ++ [] ∷ [])) ≡ l ++ (newline ++ line_breaks ls)
unfolding join
join-line_breaks l [] = append_assoc l newline []
join-line_breaks l (m ∷ ms) =
    append_assoc l newline (join newline (m ∷ (ms ++ [] ∷ [])))
    ∙ ap (λ w. l ++ (newline ++ w)) (join-line_breaks m ms)

module _ (event_json : AsciicastEvent → Option Text) where
  -- The lines of what is seen before the end.
  unfoldable pub recorded : List Seen → List Text
  recorded [] = []
  recorded (stop ∷ es) = []
  recorded (lagged ∷ es) = recorded es
  recorded (closed ∷ es) = []
  recorded (chunk time bytes w v ∷ es) =
      let rest = with_line (event_json (event_at time bytes)) (recorded es) in
      if eq_text bytes pty_exit_sentinel then [] else rest

  append_line-done :
      (file : Text) (o : Option Text) (ls : List Text)
      → ((append_line file o done done).1 ≡ true)
        × ((append_line file o done done).0 ++ line_breaks ls
            ≡ file ++ line_breaks (with_line o ls))
  append_line-done file none ls = (refl, refl)
  append_line-done file (some l) ls = (
    refl,
    append_assoc file (l ++ newline) (line_breaks ls)
        ∙ ap (λ w. file ++ w) (append_assoc l newline (line_breaks ls)),
  )

  record_loop-recorded :
      (es : List Seen) (file : Text)
      → All Written es
      → (record_loop event_json es file).file ≡ file ++ line_breaks (recorded es)
  unfolding record_loop recorded
  record_loop-recorded [] file h = sym (append-nil file)
  record_loop-recorded (stop ∷ es) file h = sym (append-nil file)
  record_loop-recorded (lagged ∷ es) file h = record_loop-recorded es file h.1
  record_loop-recorded (closed ∷ es) file h = sym (append-nil file)
  record_loop-recorded (chunk time bytes w v ∷ es) file ((e, f), h) =
      let o = event_json (event_at time bytes) in
      let (ok, same) = append_line-done file o (recorded es) in
      elim (Bool-cases (eq_text bytes pty_exit_sentinel)) [
        | inl q ↦ rw q (sym (append-nil file))
        | inr q ↦
            rw (q, e, f, ok) (record_loop-recorded es (append_line file o done done).0 h ∙ same)
      ]

  recorded-IsLine : (es : List Seen) → IsOneLined event_json → All IsLine (recorded es)
  unfolding recorded
  recorded-IsLine [] l = tt
  recorded-IsLine (stop ∷ es) l = tt
  recorded-IsLine (lagged ∷ es) l = recorded-IsLine es l
  recorded-IsLine (closed ∷ es) l = tt
  recorded-IsLine (chunk time bytes w v ∷ es) l =
      elim (Bool-cases (eq_text bytes pty_exit_sentinel)) [
        | inl q ↦ rw q tt
        | inr q ↦ rw q (
            with_line-IsLine (event_json (event_at time bytes)) (recorded es)
              (l (event_at time bytes)) (recorded-IsLine es l))
      ]
    where
      with_line-IsLine :
          (o : Option Text) (ls : List Text)
          → LineOption o
          → All IsLine ls
          → All IsLine (with_line o ls)
      with_line-IsLine none ls h k = k
      with_line-IsLine (some t) ls h k = (h, k)

  -- As long as the disk takes every write, and the JSON of a header or an event is one line, the
  -- lines of the file are the header, one line for each chunk of output that could be serialized
  -- before the recording was stopped, the session exited or its channel closed, in order, and an
  -- empty one after the last line break.
  pub record_loop-lines :
      (header file : Text) (es : List Seen)
      → start_recording (some header) true done done ≡ some file
      → All Written es
      → IsLine header
      → IsOneLined event_json
      → split 10 (record_loop event_json es file).file ≡ header ∷ (recorded es ++ [] ∷ [])
  unfolding start_recording
  record_loop-lines header file es s h k l =
      let first : header ++ newline ≡ file = cc in
      let pieces : List Text = recorded es ++ [] ∷ [] in
      ap (split 10) (
        record_loop-recorded es file h
        ∙ ap (λ w. w ++ line_breaks (recorded es)) (sym first)
        ∙ append_assoc header newline (line_breaks (recorded es))
        ∙ sym (join-line_breaks header (recorded es)))
      ∙ split-join 10 header pieces k
          (All-append IsLine (recorded es) ([] ∷ []) (recorded-IsLine es l) (tt, tt))

  last-ends :
      (more : List Seen) (t : Seen) (file : Text)
      → is_last t ≡ true
      → (is_some (record_loop event_json (t ∷ more) file).ended ≡ true)
        × (record_loop event_json (t ∷ more) file ≡ record_loop event_json (t ∷ []) file)
  unfolding record_loop
  last-ends more stop file h = (refl, refl)
  last-ends more lagged file h = absurd (ground (arith, h))
  last-ends more closed file h = (refl, refl)
  last-ends more (chunk time bytes w v) file h = rw h (refl, refl)

  -- A stop, a dropped handle, the exit of the session or the closing of its channel ends the
  -- recorder, whatever came before, however the writes went, and nothing after it is recorded.
  pub record_loop-ends :
      (es more : List Seen) (t : Seen) (file : Text)
      → is_last t ≡ true
      → (is_some (record_loop event_json (es ++ t ∷ more) file).ended ≡ true)
        × (record_loop event_json (es ++ t ∷ more) file
            ≡ record_loop event_json (es ++ t ∷ []) file)
  unfolding record_loop
  record_loop-ends [] more t file h = last-ends more t file h
  record_loop-ends (stop ∷ es) more t file h = (refl, refl)
  record_loop-ends (lagged ∷ es) more t file h = record_loop-ends es more t file h
  record_loop-ends (closed ∷ es) more t file h = (refl, refl)
  record_loop-ends (chunk time bytes w v ∷ es) more t file h =
      let next = append_line file (event_json (event_at time bytes)) w v in
      elim (Bool-cases (eq_text bytes pty_exit_sentinel)) [
        | inl q ↦ rw q (refl, refl)
        | inr q ↦ elim (Bool-cases next.1) [
          | inl ok ↦ rw (q, ok) (record_loop-ends es more t next.0 h)
          | inr ok ↦ rw (q, ok) (refl, refl)
        ]
      ]
