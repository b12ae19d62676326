-- ===== src/Server/Tests.antt =====
-- Runs on concrete values: the start of the server.
use hermytt.Prelude.{◌≡◌, refl, true, none, some, All, map}
use hermytt.Prelude.Text.{codes}
use hermytt.Server.{
  ConfigFile, Server, start_server, load, mqtt_pty, with_defaults, overridden, start, tasks,
  transport_info,
}
use hermytt.Server.Listeners.{start_server-IsGuarded, IsGuarded}
use hermytt.Server.Dashboard.{start_server-shown, infos_of, tasks_of, shown}

abbrev file : ConfigFile
file = record {
  server = record {
    bind = none;
    shell = none;
    scrollback = none;
    recording_dir = none;
    auto_record = none;
    tls_cert = some (codes "cert.pem");
    tls_key = some (codes "key.pem");
    files_dir = none;
    max_upload_size = none;
  };
  token = some (codes "secret");
  rest = some none;
  mqtt = some (record { broker = codes "10.0.0.1"; port = none; username = none; password = none });
  mqtt_pty = some none;
  tcp = some (some 9999);
}

abbrev server : Server
server =
    let c = overridden none (some (codes "0.0.0.0")) (with_defaults (codes "/bin/bash") file) in
    record { tasks = tasks c true; transport_info = transport_info c }

start_server-IsGuarded_example :
    All (IsGuarded (with_defaults (codes "/bin/bash") file)) server.tasks
unfolding start_server load start overridden with_defaults
start_server-IsGuarded_example =
    start_server-IsGuarded (codes "/bin/bash") (some (some file)) none (some (codes "0.0.0.0")) true
      (with_defaults (codes "/bin/bash") file) server refl refl

start_server-shown_example :
    infos_of mqtt_pty server.transport_info ≡ map shown (tasks_of mqtt_pty server.tasks)
unfolding start_server load start overridden with_defaults
start_server-shown_example =
    start_server-shown (codes "/bin/bash") (some (some file)) none (some (codes "0.0.0.0")) true
      server refl mqtt_pty
