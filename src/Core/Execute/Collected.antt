-- ===== src/Core/Execute/Collected.antt =====
-- hermytt-core/src/session.rs: the result of `SessionHandle::execute`.
use hermytt.Prelude.{
  ◌≡◌, refl, ap, ◌∙◌, sym, Bool, true, false, List, [], ◌∷◌, ◌++◌, some, append_assoc, append-nil,
  arith,
}
use hermytt.Prelude.Text.{Text}
use hermytt.Core.Execute.{
  Seen, deadline, silence, lagged, closed, output, typed, collect, collected, execute,
}

-- Neither the end of the wait nor of the channel.
abbrev pub is_last : Seen → Bool
is_last deadline = true
is_last silence = true
is_last closed = true
is_last lagged = false
is_last (output bytes) = false

abbrev pub outputs : List Seen → Text
outputs [] = []
outputs (output bytes ∷ es) = bytes ++ outputs es
outputs (deadline ∷ es) = []
outputs (silence ∷ es) = []
outputs (closed ∷ es) = []
outputs (lagged ∷ es) = outputs es

collect-outputs :
    (out : Text) (es : List Seen) (last : Seen) (more : List Seen)
    → is_last last ≡ true
    → collect out (es ++ last ∷ more) ≡ some (out ++ outputs es)
unfolding collect
collect-outputs out [] deadline more h = ap some (sym (append-nil out))
collect-outputs out [] silence more h = ap some (sym (append-nil out))
collect-outputs out [] closed more h = ap some (sym (append-nil out))
collect-outputs out [] lagged more h = absurd (ground (arith, h))
collect-outputs out [] (output bytes) more h = absurd (ground (arith, h))
collect-outputs out (deadline ∷ es) last more h = ap some (sym (append-nil out))
collect-outputs out (silence ∷ es) last more h = ap some (sym (append-nil out))
collect-outputs out (closed ∷ es) last more h = ap some (sym (append-nil out))
collect-outputs out (lagged ∷ es) last more h = collect-outputs out es last more h
collect-outputs out (output bytes ∷ es) last more h =
    collect-outputs (out ++ bytes) es last more h ∙ ap some (append_assoc out bytes (outputs es))

-- A command that the shell's input takes is over with the first silence, deadline or end of the
-- channel, and gives all output before that, in order, whatever comes later.
pub execute-collected :
    (cmd : Text) (es : List Seen) (last : Seen) (more : List Seen)
    → is_last last ≡ true
    → execute cmd true (es ++ last ∷ more) ≡ collected (typed cmd) (outputs es)
unfolding execute
execute-collected cmd es last more h = rw (collect-outputs [] es last more h) refl
