-- ===== src/Transport/Pairing/Backoff.antt =====
-- hermytt-transport/src/control_ws.rs: how long `connect_paired_host` waits.
use hermytt.Prelude.{
  ℕ, suc, ◌*◌, ◌^◌, ◌≤◌, min, ◌≡◌, refl, ap, List, [], ◌∷◌, if◌then◌else◌, All, arith, Bool-cases,
  inl, inr,
}
use hermytt.Transport.Pairing.{Attempt, is_long, connect_paired_host}

-- The waits by the number of rounds since the start, or since the last one that held for long.
unfoldable pub waits : ℕ → List Attempt → List ℕ
waits k [] = []
waits k (a ∷ attempts) =
    let rounds = if is_long a then 0 else k in min (2 ^ rounds) 30 ∷ waits (suc rounds) attempts

doubled : (k : ℕ) → min (min (2 ^ k) 30 * 2) 30 ≡ min (2 ^ suc k) 30
doubled k = omega arith

connect-waits :
    (k : ℕ) (attempts : List Attempt)
    → connect_paired_host (min (2 ^ k) 30) attempts ≡ waits k attempts
unfolding connect_paired_host waits
connect-waits k [] = refl
connect-waits k (a ∷ attempts) = elim (Bool-cases (is_long a)) [
  | inl q ↦ rw q (ap (λ w. 1 ∷ w) (connect-waits 1 attempts))
  | inr q ↦ rw (q, doubled k) (ap (λ w. min (2 ^ k) 30 ∷ w) (connect-waits (suc k) attempts))
]

connect-bounds :
    (b : ℕ) (attempts : List Attempt)
    → 1 ≤ b
    → b ≤ 30
    → All (λ w. (1 ≤ w) × (w ≤ 30)) (connect_paired_host b attempts)
unfolding connect_paired_host
connect-bounds b [] l u = tt
connect-bounds b (a ∷ attempts) l u = elim (Bool-cases (is_long a)) [
  | inl q ↦ rw q ((omega arith, omega arith), connect-bounds 2 attempts (omega arith) (omega arith))
  | inr q ↦
      rw q ((l, u), connect-bounds (min (b * 2) 30) attempts (omega (arith, l)) (omega (arith, u)))
]

-- Whatever becomes of the rounds of connecting, the wait after each is 2 to the number of rounds
-- since the start, or since the last connection that held for more than 30 seconds, but no more
-- than 30 seconds; it is never less than one.
pub connect_paired_host-waits :
    (attempts : List Attempt)
    → (connect_paired_host 1 attempts ≡ waits 0 attempts)
      × All (λ w. (1 ≤ w) × (w ≤ 30)) (connect_paired_host 1 attempts)
connect_paired_host-waits attempts =
    (connect-waits 0 attempts, connect-bounds 1 attempts (omega arith) (omega arith))
