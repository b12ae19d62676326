-- ===== src/Bridge/Updater/Overwrite.antt =====
-- pyttch-bridge/src/status.rs: the last word on a status message.
use hermytt.Prelude.{ℕ, ◌-◌, ◌≤◌, ◌≡◌, ◌≢◌, refl, true, false, none, some, arith}
use hermytt.Prelude.Text.{Text}
use hermytt.Bridge.Updater.{
  World, Step, Reaches, looks, edits, too_many, not_modified, fails, stops, finalizes, here, then_,
  edit_debounce,
}

-- The flag is down, the thread edits nothing, and the answer is shown.
pub record Final (response : Text) (w : World) : Type 0 where
  pub dead : w.alive ≡ false
  pub idle : w.editing ≡ none
  pub done : w.finalized ≡ some response
  pub answer : w.shown ≡ response

step-Final : {u v : World} (response : Text) → Step u v → Final response u → Final response v
step-Final response (looks w now d a e t n) f = absurd (ground (arith, a, f.dead))
step-Final response (edits w now d e) f = absurd (ground (arith, e, f.idle))
step-Final response (too_many w now d e) f = absurd (ground (arith, e, f.idle))
step-Final response (not_modified w now d e) f = absurd (ground (arith, e, f.idle))
step-Final response (fails w now d e) f = absurd (ground (arith, e, f.idle))
step-Final response (stops w a) f = absurd (ground (arith, a, f.dead))
step-Final response (finalizes w r a n) f = absurd (ground (arith, n, f.done))

pub Reaches-Final :
    {u v : World} (response : Text) → Reaches u v → Final response u → Final response v
Reaches-Final response (here w) f = f
Reaches-Final response (then_ s r) f = Reaches-Final response r (step-Final response s f)

-- From any moment at which the thread is due to edit the message to a new text, a run exists in
-- which `finalize` has shown the answer and the message ends up with that text in its place, with
-- nothing left to do that would repair it: no step leads on from there.
pub finalize_overwritten :
    (w : World) (now : ℕ) (desired response : Text)
    → w.alive ≡ true
    → w.editing ≡ none
    → w.finalized ≡ none
    → edit_debounce ≤ now - w.last_edit
    → desired ≢ w.last_text
    → (end : World) × Reaches w end
      × (end.finalized ≡ some response)
      × (end.shown ≡ desired)
      × ((after : World) → Step end after → ⊥)
finalize_overwritten w now desired response a e f t n = (
  _,
  then_ (looks w now desired a e t n) (
      then_ (stops _ a)
        (then_ (finalizes _ response refl f) (then_ (edits _ now desired refl) (here _)))),
  refl,
  refl,
  λ after s. stuck _ after refl refl refl s,
)
  where
    stuck :
        (u after : World)
        → u.alive ≡ false
        → u.editing ≡ none
        → u.finalized ≡ some response
        → Step u after
        → ⊥
    stuck u after p q r (looks w now d a e t n) = ground (arith, a, p)
    stuck u after p q r (edits w now d e) = ground (arith, e, q)
    stuck u after p q r (too_many w now d e) = ground (arith, e, q)
    stuck u after p q r (not_modified w now d e) = ground (arith, e, q)
    stuck u after p q r (fails w now d e) = ground (arith, e, q)
    stuck u after p q r (stops w a) = ground (arith, a, p)
    stuck u after p q r (finalizes w s a n) = ground (arith, n, r)
