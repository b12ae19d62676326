-- ===== src/Transport/Pairing.antt =====
-- hermytt-core/src/pairing.rs with `pair_host`, `connect_paired_host` and
-- `spawn_paired_host_connections` of hermytt-transport/src/control_ws.rs. base64 and JSON are
-- parameters; the clock, the disk and the network's answers are arguments.
pub mod Backoff
pub mod Restart
pub mod Tests
use hermytt.Prelude.{
  ℕ, ◌*◌, min, Bool, true, false, List, [], ◌∷◌, ◌++◌, Option, none, some, ltb, if◌then◌else◌,
  unwrap_or,
}
use hermytt.Prelude.Text.{Text, codes, trim}
use hermytt.Prelude.Decimal.{decimal}
use hermytt.Prelude.Map
use hermytt.Prelude.Map.{Map}

pub record PairedHost : Type 0 where
  pub name : Text
  pub ip : Text
  pub port : ℕ
  pub key : Text

pub record PairingToken : Type 0 where
  pub ip : Text
  pub port : ℕ
  pub key : Text
  pub expires : ℕ

-- The hosts in memory, and the keys file.
pub record PairedHosts : Type 0 where
  pub hosts : Map PairedHost
  pub file : Option Text

abbrev unexpired : ℕ → PairingToken → Option PairingToken
unexpired now t = if ltb now t.expires then some t else none

abbrev and_then {ℓ κ} : {A : Type ℓ} {B : Type κ} → Option A → (A → Option B) → Option B
and_then none f = none
and_then (some a) f = f a

-- `now` in seconds.
unfoldable pub decode :
    (Text → Option Text) → (Text → Option PairingToken) → ℕ → Text → Option PairingToken
decode base64 json now token =
    and_then (base64 (trim token)) (λ bytes. and_then (json bytes) (unexpired now))

abbrev pub ws_url : PairingToken → Text
ws_url t = codes "ws://" ++ t.ip ++ codes ":" ++ decimal t.port ++ codes "/pair"

-- How the disk took a file: whole, or with something else left in its place.
pub data Disk : Type 0 where
  written : Disk
  left : Option Text → Disk

module _ (print : Map PairedHost → Text) where
  unfoldable pub save : PairedHosts → Disk → PairedHosts
  save p written = record p { file = some (print p.hosts) }
  save p (left t) = record p { file = t }

  unfoldable pub add : PairedHosts → PairedHost → Disk → PairedHosts
  add p host disk = save (record p { hosts = Map.insert host.name host p.hosts }) disk

  unfoldable pub remove : PairedHosts → Text → Disk → PairedHosts
  remove p name disk = save (record p { hosts = Map.remove name p.hosts }) disk

-- A file that is not there, or is no list of hosts, reads as no hosts.
unfoldable pub load : (Text → Option (Map PairedHost)) → Option Text → PairedHosts
load parse file = record { hosts = unwrap_or (and_then file parse) []; file = file }

-- The answer to the pairing key, within ten seconds.
pub data Resp : Type 0 where
  timed_out connection_closed ws_error other : Resp
  text : Text → Resp

-- The network: whether it connects, whether the key is sent, and the answer.
pub record Network : Type 0 where
  pub connects : Bool
  pub sends : Bool
  pub resp : Resp

pub data Paired : Type 0 where
  bad_request bad_gateway gateway_timeout : Paired
  paired : Text → Text → ℕ → Paired

-- The answer's long-lived key, with the name that the shytti gives itself.
abbrev pub PairAnswer : Type 0
PairAnswer = Option Text × Option Text

abbrev default_name : PairingToken → Text
default_name t = codes "shytti-" ++ t.ip ++ codes ":" ++ decimal t.port

abbrev pub host_of : PairingToken → Text → Option Text → PairedHost
host_of t key name = record {
  name = unwrap_or name (default_name t);
  ip = t.ip;
  port = t.port;
  key = key;
}

module _ (print : Map PairedHost → Text) (answer_json : Text → Option PairAnswer) where
  abbrev pub keep_key : PairedHosts → Disk → PairingToken → Option PairAnswer → PairedHosts × Paired
  keep_key p disk t none = (p, bad_gateway)
  keep_key p disk t (some (none, name)) = (p, bad_gateway)
  keep_key p disk t (some (some key, name)) =
      let host = host_of t key name in (add print p host disk, paired host.name host.ip host.port)

  abbrev pub answered : PairedHosts → Disk → PairingToken → Resp → PairedHosts × Paired
  answered p disk t timed_out = (p, gateway_timeout)
  answered p disk t connection_closed = (p, bad_gateway)
  answered p disk t ws_error = (p, bad_gateway)
  answered p disk t other = (p, bad_gateway)
  answered p disk t (text s) = keep_key p disk t (answer_json s)

  abbrev pub with_token : PairedHosts → Disk → Network → Option PairingToken → PairedHosts × Paired
  with_token p disk net none = (p, bad_request)
  with_token p disk net (some t) =
      if net.connects
      then if net.sends then answered p disk t net.resp else (p, bad_gateway)
      else (p, bad_gateway)

  -- With the token as it was decoded.
  unfoldable pub pair_host :
      PairedHosts → Disk → Network → Option PairingToken → PairedHosts × Paired
  pair_host p disk net token = with_token p disk net token

-- The hosts that get a reconnect loop when the program starts, by the keys file.
unfoldable pub spawn_paired_host_connections :
    (Text → Option (Map PairedHost)) → Option Text → Map PairedHost
spawn_paired_host_connections parse file = (load parse file).hosts

-- One round of `connect_paired_host`: where it failed, or how long the connection held, in
-- nanoseconds.
pub data Attempt : Type 0 where
  refused unsent closed_early : Attempt
  held : ℕ → Attempt

abbrev pub max_backoff : ℕ
max_backoff = 30

abbrev pub is_long : Attempt → Bool
is_long (held elapsed) = ltb 30_000_000_000 elapsed
is_long refused = false
is_long unsent = false
is_long closed_early = false

-- The seconds slept after each round.
unfoldable pub connect_paired_host : ℕ → List Attempt → List ℕ
connect_paired_host backoff [] = []
connect_paired_host backoff (a ∷ attempts) =
    let wait = if is_long a then 1 else backoff in
    wait ∷ connect_paired_host (min (wait * 2) max_backoff) attempts
