-- ===== src/Transport/Mqtt/Forwarding.antt =====
-- The output forwarder of hermytt-transport/src/mqtt_pty.rs.
use hermytt.Prelude.{
  ℕ, ◌+◌, ◌-◌, ◌≡◌, refl, ap, Bool, true, false, List, [], ◌∷◌, ◌++◌, arith, ltb, length,
  length-append, drop, All,
}
use hermytt.Prelude.Text.{Text, eq_text_refl}
use hermytt.Core.Sessions.{pty_exit_sentinel}
use hermytt.Transport.Mqtt.{forward, ends_with, Published, output, exited}

drop-append : (xs ys : Text) → drop (length xs) (xs ++ ys) ≡ ys
drop-append [] ys = refl
drop-append (x ∷ xs) ys = drop-append xs ys

ends_with-append : (s p : Text) → ends_with p (s ++ p) ≡ true
unfolding ends_with
ends_with-append s p =
    rw (short (length (s ++ p)) (length p) (length-append s p), surplus, drop-append s p)
      (eq_text_refl p)
  where
    surplus : (length (s ++ p) - length p) ≡ length s
    surplus = rw (length-append s p) (omega arith)

    short : (n m : ℕ) → n ≡ length s + m → ltb n m ≡ false
    short n m e = ground arith

-- A batch that the broker took and that does not end in the sentinel.
abbrev pub IsPlain : Text × Bool → Type 0
IsPlain b = (ends_with pty_exit_sentinel b.0 ≡ false) × (b.1 ≡ true)

abbrev pub outputs : List (Text × Bool) → List Published
outputs [] = []
outputs ((batch, taken) ∷ bs) = output batch ∷ outputs bs

-- When the output that came within one window before the shell's exit shares its batch with the
-- sentinel, it is not published: after the earlier batches, all taken by the broker, only the exit
-- is, whatever that output was.
pub forward-last_batch :
    (before after : List (Text × Bool)) (last : Text) (taken : Bool)
    → All IsPlain before
    → forward (before ++ (last ++ pty_exit_sentinel, taken) ∷ after) ≡ outputs before ++ exited ∷ []
unfolding forward
forward-last_batch [] after last taken h = rw (ends_with-append last pty_exit_sentinel) refl
forward-last_batch ((batch, took) ∷ before) after last taken h =
    rw (forward, h.0.0, h.0.1)
      (ap (λ r. output batch ∷ r) (forward-last_batch before after last taken h.1))
