-- ===== src/Core/Recording/Tests.antt =====
-- Runs on concrete values: recordings.
use hermytt.Prelude.{◌≡◌, refl, true, List, [], ◌∷◌, ◌++◌, Option, some, is_some, arith}
use hermytt.Prelude.Text.{Text, codes, split}
use hermytt.Core.Recording.{
  start_recording, AsciicastEvent, done, Seen, stop, lagged, chunk, record_loop, Entry,
}
use hermytt.Core.Recording.Lines.{record_loop-lines, record_loop-ends, recorded}

-- A serializer of one character.
abbrev event_json : AsciicastEvent → Option Text
event_json e = some (codes "e")

abbrev seen : List Seen
seen = chunk 1 (codes "a\nb") done done ∷ lagged ∷ chunk 2 (codes "c") done done ∷ stop ∷ []

record_loop-lines_example :
    split 10 (record_loop event_json seen (codes "h\n")).file
    ≡ codes "h" ∷ (recorded event_json seen ++ [] ∷ [])
unfolding start_recording
record_loop-lines_example =
    record_loop-lines event_json (codes "h") (codes "h\n") seen refl
      ((refl, refl), (tt, ((refl, refl), (tt, tt)))) ((λ e. absurd (omega (arith, e))), tt)
      (λ e. ((λ e. absurd (omega (arith, e))), tt))

record_loop-ends_example :
    is_some
      (record_loop event_json (chunk 1 (codes "a") done done ∷ stop ∷ seen) (codes "h\n")).ended
    ≡ true
record_loop-ends_example =
    (record_loop-ends event_json (chunk 1 (codes "a") done done ∷ []) seen stop (codes "h\n")
      refl).0

abbrev entries : List Entry
entries =
    (record { filename = codes "a.cast"; metadata = some (5, some 10) })
    ∷ (record { filename = codes "b.cast"; metadata = some (6, some 12) })
    ∷ (record { filename = codes "c.txt"; metadata = some (7, some 11) })
    ∷ []
