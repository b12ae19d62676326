-- ===== src/Transport/Pairing/Tests.antt =====
-- Runs on concrete values: pairing.
use hermytt.Prelude.{◌≡◌, [], ◌∷◌, Option, none, some, if◌then◌else◌}
use hermytt.Prelude.Text.{Text, codes, eq_text}
use hermytt.Prelude.Map
use hermytt.Prelude.Map.{Map, UniqueKeys, keep_if}
use hermytt.Transport.Pairing.{
  PairedHost, PairedHosts, PairingToken, PairAnswer, host_of, connect_paired_host, refused, held,
}
use hermytt.Transport.Pairing.Backoff.{connect_paired_host-waits, waits}

abbrev token : PairingToken
token = record { ip = codes "10.0.0.2"; port = 7778; key = codes "k"; expires = 100 }

abbrev host : PairedHost
host = host_of token (codes "long") (some (codes "cave"))

abbrev answer_json : Text → Option PairAnswer
answer_json s = some (some (codes "long"), some (codes "cave"))

abbrev one : Map PairedHost
one = (codes "cave", host) ∷ []

abbrev parse_file : Text → Option (Map PairedHost)
parse_file s = if eq_text s (codes "cave") then some one else none

abbrev print : Map PairedHost → Text
print [] = []
print ((k, h) ∷ m) = k

abbrev nobody : PairedHosts
nobody = record { hosts = []; file = none }

connect_paired_host-waits_example :
    connect_paired_host 1 (refused ∷ refused ∷ held 40_000_000_000 ∷ refused ∷ [])
    ≡ waits 0 (refused ∷ refused ∷ held 40_000_000_000 ∷ refused ∷ [])
connect_paired_host-waits_example =
    (connect_paired_host-waits (refused ∷ refused ∷ held 40_000_000_000 ∷ refused ∷ [])).0
