-- ===== src/Server.antt =====
-- hermytt-server/src/config.rs and hermytt-server/src/main.rs: the configuration with its defaults,
-- and what `start_server` starts. TOML is a parameter: what the file sets, each setting or nothing.
-- Whether the certificate could be loaded is an argument.
pub mod Listeners
pub mod Dashboard
pub mod Tests
use hermytt.Prelude.{
  ℕ, ◌*◌, ◌<◌, Bool, true, false, List, [], ◌∷◌, ◌++◌, Option, none, some, is_some, if◌then◌else◌,
  unwrap_or, is_empty, ltb, length,
}
use hermytt.Prelude.Text.{Text, codes}
use hermytt.Prelude.Decimal.{decimal}

pub record ServerConfig : Type 0 where
  pub bind : Text
  pub shell : Text
  pub scrollback : ℕ
  pub recording_dir : Option Text
  pub auto_record : Bool
  pub tls_cert : Option Text
  pub tls_key : Option Text
  pub files_dir : Option Text
  pub max_upload_size : ℕ

pub record MqttConfig : Type 0 where
  pub broker : Text
  pub port : ℕ
  pub username : Option Text
  pub password : Option Text

-- A transport that is one number: a port, or the milliseconds of `mqtt_pty`.
pub record TransportConfig : Type 0 where
  pub rest : Option ℕ
  pub mqtt : Option MqttConfig
  pub mqtt_pty : Option ℕ
  pub tcp : Option ℕ

pub record Config : Type 0 where
  pub server : ServerConfig
  pub token : Option Text
  pub transport : TransportConfig

-- The settings of a file. A section that is there may leave its number out.
pub record ServerFile : Type 0 where
  pub bind : Option Text
  pub shell : Option Text
  pub scrollback : Option ℕ
  pub recording_dir : Option Text
  pub auto_record : Option Bool
  pub tls_cert : Option Text
  pub tls_key : Option Text
  pub files_dir : Option Text
  pub max_upload_size : Option ℕ

pub record MqttFile : Type 0 where
  pub broker : Text
  pub port : Option ℕ
  pub username : Option Text
  pub password : Option Text

pub record ConfigFile : Type 0 where
  pub server : ServerFile
  pub token : Option Text
  pub rest : Option (Option ℕ)
  pub mqtt : Option MqttFile
  pub mqtt_pty : Option (Option ℕ)
  pub tcp : Option (Option ℕ)

abbrev no_server : ServerFile
no_server = record {
  bind = none;
  shell = none;
  scrollback = none;
  recording_dir = none;
  auto_record = none;
  tls_cert = none;
  tls_key = none;
  files_dir = none;
  max_upload_size = none;
}

-- `default_shell` is the platform's shell.
abbrev server_of : Text → ServerFile → ServerConfig
server_of default_shell f = record {
  bind = unwrap_or f.bind (codes "127.0.0.1");
  shell = unwrap_or f.shell default_shell;
  scrollback = unwrap_or f.scrollback 1000;
  recording_dir = f.recording_dir;
  auto_record = unwrap_or f.auto_record false;
  tls_cert = f.tls_cert;
  tls_key = f.tls_key;
  files_dir = f.files_dir;
  max_upload_size = unwrap_or f.max_upload_size (10 * 1024 * 1024);
}

abbrev section : Option (Option ℕ) → ℕ → Option ℕ
section none d = none
section (some o) d = some (unwrap_or o d)

abbrev mqtt_of : Option MqttFile → Option MqttConfig
mqtt_of none = none
mqtt_of (some f) = some (record {
  broker = f.broker;
  port = unwrap_or f.port 1883;
  username = f.username;
  password = f.password;
})

unfoldable pub with_defaults : Text → ConfigFile → Config
with_defaults default_shell f = record {
  server = server_of default_shell f.server;
  token = f.token;
  transport = record {
    rest = section f.rest 7777;
    mqtt = mqtt_of f.mqtt;
    mqtt_pty = section f.mqtt_pty 200;
    tcp = section f.tcp 7779;
  };
}

unfoldable pub default_config : Text → Config
default_config default_shell = record {
  server = server_of default_shell no_server;
  token = none;
  transport = record { rest = some 7777; mqtt = none; mqtt_pty = none; tcp = none };
}

abbrev read_config : Text → Option ConfigFile → Option Config
read_config default_shell none = none
read_config default_shell (some f) = some (with_defaults default_shell f)

-- With a path, what its file parses to, if it could be read and parsed.
unfoldable pub load : Text → Option (Option ConfigFile) → Option Config
load default_shell none = some (default_config default_shell)
load default_shell (some file) = read_config default_shell file

unfoldable pub overridden : Option Text → Option Text → Config → Config
overridden shell bind c = record c {
  server = record (c.server) {
    shell = unwrap_or shell c.server.shell;
    bind = unwrap_or bind c.server.bind;
  };
}

-- What runs: with the address and port it listens on, or those of its broker.
pub data Kind : Type 0 where
  rest mqtt_pty mqtt tcp : Kind

pub record Task : Type 0 where
  pub kind : Kind
  pub host : Text
  pub port : ℕ
  pub auth_token : Option Text
  pub tls : Bool

pub record TransportInfo : Type 0 where
  pub kind : Kind
  pub endpoint : Text

-- The transports that were started, beside the cleanup of dead sessions, and what the dashboard
-- shows.
pub record Server : Type 0 where
  pub tasks : List Task
  pub transport_info : List TransportInfo

pub data Start : Type 0 where
  no_config half_tls bad_tls : Start
  running : Server → Start

abbrev pub endpoint : Text → ℕ → Text
endpoint host port = host ++ (codes ":" ++ decimal port)

abbrev one {ℓ κ} : {A : Type ℓ} {B : Type κ} → (A → B) → Option A → List B
one f none = []
one f (some a) = f a ∷ []

module _ (c : Config) where
  abbrev info : Kind → Text → ℕ → TransportInfo
  info kind host port = record { kind = kind; endpoint = endpoint host port }

  abbrev mqtt_info : Option MqttConfig → List TransportInfo
  mqtt_info none = []
  mqtt_info (some m) =
      info mqtt m.broker m.port
      ∷ one (λ (b : ℕ). info mqtt_pty m.broker m.port) c.transport.mqtt_pty

  unfoldable pub transport_info : List TransportInfo
  transport_info =
      one (info rest c.server.bind) c.transport.rest
      ++ (mqtt_info c.transport.mqtt ++ one (info tcp c.server.bind) c.transport.tcp)

  -- A listener of the server's own, with the token and TLS; a client of the broker has neither.
  abbrev listener : Bool → Kind → ℕ → Task
  listener tls kind port = record {
    kind = kind;
    host = c.server.bind;
    port = port;
    auth_token = c.token;
    tls = tls;
  }

  abbrev client : Kind → MqttConfig → Task
  client kind m = record {
    kind = kind;
    host = m.broker;
    port = m.port;
    auth_token = none;
    tls = false;
  }

  abbrev mqtt_tasks : Option MqttConfig → List Task
  mqtt_tasks none = []
  mqtt_tasks (some m) =
      one (λ (b : ℕ). client mqtt_pty m) c.transport.mqtt_pty ++ client mqtt m ∷ []

  unfoldable pub tasks : Bool → List Task
  tasks tls =
      one (listener tls rest) c.transport.rest
      ++ (mqtt_tasks c.transport.mqtt ++ one (listener tls tcp) c.transport.tcp)

  abbrev serve : Bool → Start
  serve tls = running (record { tasks = tasks tls; transport_info = transport_info })

  abbrev with_tls : Bool → Option Text → Option Text → Start
  with_tls loads (some cert) (some key) = if loads then serve true else bad_tls
  with_tls loads (some cert) none = half_tls
  with_tls loads none (some key) = half_tls
  with_tls loads none none = serve false

  unfoldable pub start : Bool → Start
  start loads = with_tls loads c.server.tls_cert c.server.tls_key

abbrev start_loaded : Option Text → Option Text → Bool → Option Config → Start
start_loaded shell bind loads none = no_config
start_loaded shell bind loads (some c) = start (overridden shell bind c) loads

unfoldable pub start_server :
    Text → Option (Option ConfigFile) → Option Text → Option Text → Bool → Start
start_server default_shell file shell bind loads =
    start_loaded shell bind loads (load default_shell file)
