-- ===== src/Prelude/Pieces.antt =====
-- `split` after `join`, and texts without a separator.
use Prim.Native.Nat.{ℕ}
use mathlib.Core.Path.{◌≡◌, refl, sym, ap, ◌∙◌}
use mathlib.Core.Bool.{true, false, not}
use mathlib.Core.List.{List, [], ◌∷◌, ◌++◌, append_assoc, append-nil}
use mathlib.Core.Logic.{◌≢◌}
use native.Mathlib.Omega.{arith}
use hermytt.Prelude.Tests.{◌==◌}
use hermytt.Prelude.Lists.{All, all}
use hermytt.Prelude.Text.{Text, split, split_from, join}

-- Pieces without the separator come back from `split`.
abbrev pub Lacks : ℕ → Text → Type 0
Lacks sep = All (λ c. c ≢ sep)

pub split_from-piece :
    (sep : ℕ) (cur s rest : Text)
    → Lacks sep s
    → split_from sep cur (s ++ rest) ≡ split_from sep (cur ++ s) rest
unfolding split_from
split_from-piece sep cur [] rest h = ap (λ w. split_from sep w rest) (sym (append-nil cur))
split_from-piece sep cur (c ∷ cs) rest h =
    rw (unequal h.0, split_from-piece sep (cur ++ c ∷ []) cs rest h.1)
      (ap (λ w. split_from sep w rest) (append_assoc cur (c ∷ []) cs))
  where
    unequal : c ≢ sep → (c == sep) ≡ false
    unequal k = ground (arith, k)

pub split-join :
    (sep : ℕ) (s : Text) (ss : List Text)
    → Lacks sep s
    → All (Lacks sep) ss
    → split sep (join (sep ∷ []) (s ∷ ss)) ≡ s ∷ ss
unfolding split join split_from
split-join sep s [] h k =
    rw (ap (λ w. split_from sep [] w) (sym (append-nil s)), split_from-piece sep [] s [] h) refl
split-join sep s (t ∷ ts) h k =
    ap (λ w. split_from sep [] w) (append_assoc s (sep ∷ []) (join (sep ∷ []) (t ∷ ts)))
    ∙ split_from-piece sep [] s (sep ∷ join (sep ∷ []) (t ∷ ts)) h
    ∙ rw (same sep) (ap (λ w. s ∷ w) (split-join sep t ts k.0 k.1))
  where
    same : (n : ℕ) → (n == n) ≡ true
    same n = ground arith

pub split-join_nonempty :
    (sep : ℕ) (ss : List Text) → ss ≢ [] → All (Lacks sep) ss → split sep (join (sep ∷ []) ss) ≡ ss
split-join_nonempty sep [] n h = absurd (n refl)
split-join_nonempty sep (s ∷ ss) n h = split-join sep s ss h.0 h.1

pub all-Lacks : (sep : ℕ) (s : Text) → all (λ c. not (c == sep)) s ≡ true → Lacks sep s
all-Lacks sep [] h = tt
all-Lacks sep (c ∷ cs) h = (ground arith, all-Lacks sep cs (ground arith))
