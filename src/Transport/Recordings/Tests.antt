-- ===== src/Transport/Recordings/Tests.antt =====
-- Runs on concrete values: recording handlers.
use hermytt.Prelude.{◌≡◌, refl, true, List, [], ◌∷◌, none, some, if◌then◌else◌, arith, All, ◌⊎◌}
use hermytt.Prelude.Text.{codes}
use hermytt.Prelude.Map
use hermytt.Prelude.Map.{Map, UniqueKeys, keep_if}
use hermytt.Transport.Recordings.{
  Recordings, start_recording, stop_recording, stopped, recording_name, start_check, file,
  bad_request, download_recording,
}
use hermytt.Transport.Recordings.Concurrent.{
  IsHeld, IsInHand, Op, starts, takes, goes_on, is_abandoned, run, nothing_recorded,
}
use hermytt.Transport.Recordings.Recorders.{run-IsOwned}
use hermytt.Transport.Recordings.Races.{start_twice, start-stop}
use hermytt.Transport.Recordings.Names.{download-name, leads_out}

abbrev ops : List Op
ops =
    starts (codes "s") (codes "7") (some 1)
    ∷ starts (codes "s") (codes "7") (some 2)
    ∷ goes_on 1
    ∷ goes_on 0
    ∷ starts (codes "t") (codes "8") (some 3)
    ∷ is_abandoned 0
    ∷ takes (codes "s")
    ∷ []

run-IsOwned_example :
    let w = run nothing_recorded ops in
    All (λ r. IsHeld w.state.recordings r ⊎ IsInHand w.handlers r) w.state.running
run-IsOwned_example = run-IsOwned ops

abbrev nothing_running : Recordings
nothing_running = record { recordings = []; running = [] }

start_twice_example : start_check nothing_running true true (codes "s") ≡ none
unfolding Map.lookup
start_twice_example =
    (start_twice nothing_running (codes "s") (codes "7") (codes "7") 1 2 refl
      (λ e. absurd (omega (arith, e)))).0

start-stop_example :
    (stop_recording
      (start_recording nothing_running true true (codes "s") (codes "7") (some 1)).0
      (codes "s")).1
    ≡ stopped (recording_name (codes "s") (codes "7"))
unfolding Map.lookup
start-stop_example = (start-stop nothing_running (codes "s") (codes "7") (codes "8") 1 none refl).2

download-name_example :
    download_recording
      (some (Map.insert (recording_name (codes "../s") (codes "7")) (codes "x") []))
      (recording_name (codes "../s") (codes "7"))
      true
    ≡ (if leads_out (codes "../s") then bad_request else file (codes "x"))
download-name_example = download-name [] (codes "../s") (codes "7") (codes "x") (refl, tt)
