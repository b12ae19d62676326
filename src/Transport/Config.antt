-- ===== src/Transport/Config.antt =====
-- The configuration handlers of hermytt-transport/src/rest.rs (`get_config`, `save_config`). The
-- configuration file is its text, if it can be read; TOML is a parameter, in both directions.
pub mod Auth
pub mod Validation
pub mod Tests
use hermytt.Prelude.{
  ℕ, Bool, true, false, not, ◌||◌, ◌&&◌, ◌==◌, Option, none, some, [], ltb, if◌then◌else◌, is_empty,
  unwrap_or, is_some, is_none,
}
use hermytt.Prelude.Text.{Text, codes}
use hermytt.Prelude.Json.{
  Json, Fields, object, get, as_str, as_u64, on_object, remove_field, insert_field,
}

pub data Status : Type 0 where
  not_found bad_request internal_error ok : Status

-- A value as TOML: it may be none, or it may be one that cannot be printed.
pub data Printed : Type 0 where
  invalid unserializable : Printed
  printed : Text → Printed

-- How the write of the file ends: whole, or with something left in its place.
pub data Disk : Type 0 where
  written : Disk
  left : Option Text → Disk

abbrev pub and_then {ℓ κ} : {A : Type ℓ} {B : Type κ} → Option A → (A → Option B) → Option B
and_then none f = none
and_then (some a) f = f a

abbrev pub is_port : Json → Bool
is_port port = not (unwrap_or (as_u64 port) 0 == 0 || ltb 65535 (unwrap_or (as_u64 port) 0))

abbrev pub mqtt_ok : Option Json → Bool
mqtt_ok none = true
mqtt_ok (some mqtt) = not (is_empty (unwrap_or (and_then (get (codes "broker") mqtt) as_str) []))

abbrev port_option : Option Json → Bool
port_option none = true
port_option (some port) = is_port port

abbrev pub port_ok : Option Json → Bool
port_ok none = true
port_ok (some section) = port_option (get (codes "port") section)

abbrev pub transport_ok : Option Json → Bool
transport_ok none = true
transport_ok (some t) =
    mqtt_ok (get (codes "mqtt") t)
    && (port_ok (get (codes "rest") t)
        && (port_ok (get (codes "tcp") t)
            && not (is_some (get (codes "mqtt_pty") t) && is_none (get (codes "mqtt") t))))

abbrev pub put_auth : Option Json → Json → Json
put_auth none body = body
put_auth (some auth) body = on_object (insert_field (codes "auth") auth) body

module _ (read_toml : Text → Option Json) where
  abbrev pub existing_auth : Option Text → Option Json
  existing_auth content = and_then (and_then content read_toml) (get (codes "auth"))

  -- The body without its `auth`, and with that of the file.
  unfoldable pub prepared : Option Text → Json → Json
  prepared content body =
      put_auth (existing_auth content) (on_object (remove_field (codes "auth")) body)

  unfoldable pub get_config : Bool → Option Text → Status × Option Json
  get_config false content = (not_found, none)
  get_config true content =
      let parsed = and_then content read_toml in
      if is_some parsed then (ok, parsed) else (internal_error, none)

module _ (read_toml : Text → Option Json) (print_toml : Json → Printed) where
  abbrev pub store : Option Text → Disk → Printed → Option Text × Status
  store content disk invalid = (content, bad_request)
  store content disk unserializable = (content, internal_error)
  store content written (printed t) = (some t, ok)
  store content (left rest) (printed t) = (rest, internal_error)

  unfoldable pub save_config : Bool → Option Text → Json → Disk → Option Text × Status
  save_config false content body disk = (content, not_found)
  save_config true content body disk =
      let body' = prepared read_toml content body in
      if transport_ok (get (codes "transport") body')
      then store content disk (print_toml body')
      else (content, bad_request)
