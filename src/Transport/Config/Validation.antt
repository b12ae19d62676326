-- ===== src/Transport/Config/Validation.antt =====
-- hermytt-transport/src/rest.rs: what a saved configuration satisfies.
use hermytt.Prelude.{
  ℕ, ◌≡◌, ◌≢◌, ◌≤◌, refl, sym, ap, subst, ◌∙◌, true, Option, none, some, arith, Bool-cases, inl,
  inr, [], ◌∷◌, is_empty, is_some, not, unwrap_or,
}
use hermytt.Prelude.Text.{Text, codes, eq_text}
use hermytt.Prelude.Json.{Json, Fields, object, get, field_of, as_str, as_u64}
use hermytt.Transport.Config.{
  Status, ok, Printed, invalid, unserializable, printed, Disk, written, left, and_then,
  transport_ok, mqtt_ok, port_ok, port_option, is_port, prepared, store, save_config,
}
use hermytt.Transport.Config.Auth.{prepared-others}

abbrev pub IsPort : Json → Type 0
IsPort j = (n : ℕ) × (as_u64 j ≡ some n) × (1 ≤ n) × (n ≤ 65535)

-- The section has no port, or a good one.
abbrev pub HasPort : Json → Type 0
HasPort section = (port : Json) → get (codes "port") section ≡ some port → IsPort port

abbrev pub HasBroker : Json → Type 0
HasBroker mqtt = (b : Text) × (and_then (get (codes "broker") mqtt) as_str ≡ some b) × (b ≢ [])

abbrev pub IsValid : Json → Type 0
IsValid t =
    ((s : Json) → get (codes "mqtt") t ≡ some s → HasBroker s)
    × ((s : Json) → get (codes "rest") t ≡ some s → HasPort s)
    × ((s : Json) → get (codes "tcp") t ≡ some s → HasPort s)
    × ((s : Json) → get (codes "mqtt_pty") t ≡ some s → is_some (get (codes "mqtt") t) ≡ true)

broker :
    (o : Option Text)
    → not (is_empty (unwrap_or o [])) ≡ true
    → (b : Text) × (o ≡ some b) × (b ≢ [])
broker none h = absurd (ground (arith, h))
broker (some []) h = absurd (ground (arith, h))
broker (some (c ∷ cs)) h = (c ∷ cs, refl, λ e. cc)

mqtt_ok-HasBroker : (o : Option Json) (s : Json) → mqtt_ok o ≡ true → o ≡ some s → HasBroker s
mqtt_ok-HasBroker none s h e = absurd (ground (arith, e))
mqtt_ok-HasBroker (some m) s h e =
    let same : m ≡ s = cc in
    subst HasBroker same (broker (and_then (get (codes "broker") m) as_str) h)

port : (j : Json) (o : Option ℕ) → as_u64 j ≡ o → is_port j ≡ true → IsPort j
port j none e h = absurd (ground (arith, e, h))
port j (some n) e h = (n, e, ground (arith, e, h), ground (arith, e, h))

port_ok-HasPort : (o : Option Json) (s : Json) → port_ok o ≡ true → o ≡ some s → HasPort s
port_ok-HasPort none s h e = absurd (ground (arith, e))
port_ok-HasPort (some m) s h e =
    let same : m ≡ s = cc in subst HasPort same (by_port (get (codes "port") m) h)
  where
    by_port : (o : Option Json) → port_option o ≡ true → (p : Json) → o ≡ some p → IsPort p
    by_port none k p e = absurd (ground (arith, e))
    by_port (some q) k p e = let same : q ≡ p = cc in subst IsPort same (port q (as_u64 q) refl k)

transport_ok-IsValid : (t : Json) → transport_ok (some t) ≡ true → IsValid t
transport_ok-IsValid t h = (
  λ s e. mqtt_ok-HasBroker (get (codes "mqtt") t) s (ground (arith, h)) e,
  λ s e. port_ok-HasPort (get (codes "rest") t) s (ground (arith, h)) e,
  λ s e. port_ok-HasPort (get (codes "tcp") t) s (ground (arith, h)) e,
  λ s e. ground (arith, h, e),
)

module _ (read_toml : Text → Option Json) (print_toml : Json → Printed) where
  -- A configuration that is saved has, in the transports that were sent, a broker for MQTT that is
  -- not empty, ports of REST and TCP between 1 and 65535 where they are given, and MQTT if it has
  -- MQTT terminals; a request that is refused as bad leaves the file as it was.
  pub save_config-IsValid :
      (content : Option Text) (fs : Fields) (disk : Disk) (t : Json)
      → field_of (codes "transport") fs ≡ some t
      → let after = save_config read_toml print_toml true content (object fs) disk in
        (after.1 ≡ ok → IsValid t) × (after.1 ≡ Status.bad_request → after.0 ≡ content)
  unfolding save_config eq_text
  save_config-IsValid content fs disk t e =
      let body = prepared read_toml content (object fs) in
      let sent : get (codes "transport") body ≡ some t =
        prepared-others read_toml content fs (codes "transport") refl ∙ e in
      elim (Bool-cases (transport_ok (get (codes "transport") body))) [
        | inl q ↦
            let valid = transport_ok-IsValid t (sym (ap transport_ok sent) ∙ q) in
            rw q (λ h. valid, by_print disk (print_toml body))
        | inr q ↦ rw q (λ h. cc, λ h. refl)
      ]
    where
      by_print :
          (d : Disk) (p : Printed)
          → (store read_toml print_toml content d p).1 ≡ Status.bad_request
          → (store read_toml print_toml content d p).0 ≡ content
      by_print d invalid h = refl
      by_print d unserializable h = refl
      by_print written (printed s) h = cc
      by_print (left r) (printed s) h = cc
