-- ===== src/Core/Sessions/Tests.antt =====
-- Runs on concrete values: the session manager.
use hermytt.Prelude.{
  ℕ, zero, suc, ◌+◌, ◌-◌, ◌*◌, ◌≤◌, ◌<◌, ◌≡◌, ◌≢◌, ◌↔◌, ◌⊎◌, inl, inr, refl, Bool, true, false,
  List, [], ◌∷◌, ◌++◌, Option, none, some, is_some, is_none, if◌then◌else◌, arith, All, length,
  take, ltb, leb, keep, all,
}
use hermytt.Prelude.Text.{Text, codes, eq_text, join, is_alphanumeric, split}
use hermytt.Prelude.Map
use hermytt.Prelude.Map.{Map, UniqueKeys, keep_if}
use hermytt.Core.Sessions.{Session, SessionManager, running, with_max_sessions}
use hermytt.Core.Sessions.Invariant.{
  Inv, Call, run, creates, registers, unregisters, takes, cleans, run-new-Inv,
}
use hermytt.Core.Sessions.Managed.{Spares}

abbrev calls : List Call
calls =
    creates (codes "a") (running 7)
    ∷ registers (some (codes "b")) none (codes "x")
    ∷ takes (codes "b")
    ∷ []

run-new-Inv_example : UniqueKeys (run (with_max_sessions (codes "sh") 100 2) calls).sessions
run-new-Inv_example = (run-new-Inv (codes "sh") 100 2 calls).0

abbrev shown : Session
shown = record {
  id = codes "b";
  host = some (codes "h");
  name = none;
  scrollback = record { lines = []; capacity = 10 };
  stdin_rx = true;
  child = none;
  master = none;
  managed = true;
  shell = [];
}

abbrev manager : SessionManager
manager = record {
  sessions = (codes "b", shown) ∷ [];
  shell = codes "sh";
  scrollback_capacity = 10;
  max_sessions = 2;
  sent = [];
}

manager-Inv : Inv manager
unfolding Map.lookup eq_text
manager-Inv = record {
  unique = (refl, tt);
  filed = record { at = λ k s. ground (arith, hermytt.Prelude.Text.eq_text_iff (codes "b") k) };
  bounded = omega arith;
}

abbrev later : List Call
later = cleans (λ _. true) ∷ takes (codes "b") ∷ unregisters (codes "a") ∷ []

later-Spares : All (Spares (codes "b")) later
later-Spares = (tt, (tt, (λ e. ground arith, tt)))
