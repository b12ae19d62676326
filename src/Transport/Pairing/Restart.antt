-- ===== src/Transport/Pairing/Restart.antt =====
-- hermytt-core/src/pairing.rs and hermytt-transport/src/control_ws.rs: a paired host over a restart.
use hermytt.Prelude.{ℕ, ◌≡◌, refl, Option, none, some, Bool-cases, inl, inr, ◌⊎◌}
use hermytt.Prelude.Text.{Text}
use hermytt.Prelude.Map
use hermytt.Prelude.Map.{Map}
use hermytt.Transport.Pairing.{
  PairedHost, PairedHosts, PairingToken, Disk, Network, text, Resp, timed_out, connection_closed,
  ws_error, other, Paired, paired, PairAnswer, host_of, pair_host, keep_key, answered,
}

module _ (print : Map PairedHost → Text) (answer_json : Text → Option PairAnswer) where
  -- A pairing that fails at any stage leaves the hosts and their file as they were.
  pub pair_host-failed :
      (p : PairedHosts) (disk : Disk) (net : Network) (token : Option PairingToken)
      → let after = pair_host print answer_json p disk net token in
        (after.0 ≡ p) ⊎ ((name : Text) × (ip : Text) × (port : ℕ) × (after.1 ≡ paired name ip port))
  unfolding pair_host
  pair_host-failed p disk net none = inl refl
  pair_host-failed p disk net (some t) = elim (Bool-cases net.connects) [
    | inl c ↦ elim (Bool-cases net.sends) [
      | inl d ↦ rw (c, d) (by_resp net.resp)
      | inr d ↦ rw (c, d) (inl refl)
    ]
    | inr c ↦ rw c (inl refl)
  ]
    where
      Fails : PairedHosts × Paired → Type 0
      Fails after =
          (after.0 ≡ p)
          ⊎ ((name : Text) × (ip : Text) × (port : ℕ) × (after.1 ≡ paired name ip port))

      by_answer : (o : Option PairAnswer) → Fails (keep_key print answer_json p disk t o)
      by_answer none = inl refl
      by_answer (some (none, name)) = inl refl
      by_answer (some (some key, name)) = inr ((host_of t key name).name, t.ip, t.port, refl)

      by_resp : (r : Resp) → Fails (answered print answer_json p disk t r)
      by_resp timed_out = inl refl
      by_resp connection_closed = inl refl
      by_resp ws_error = inl refl
      by_resp other = inl refl
      by_resp (text s) = by_answer (answer_json s)
