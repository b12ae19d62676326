-- ===== src/Server/Listeners.antt =====
-- hermytt-server/src/main.rs: how the listeners of a started server are guarded.
use hermytt.Prelude.{
  ℕ, ◌≡◌, refl, sym, ap, ◌∙◌, Bool, true, false, [], ◌∷◌, Option, none, some, is_some, All,
  All-append, arith, Bool-cases, inl, inr, subst,
}
use hermytt.Prelude.Text.{Text}
use hermytt.Server.{
  Config, ConfigFile, MqttConfig, Kind, rest, mqtt, mqtt_pty, tcp, Task, Server, Start, no_config,
  half_tls, bad_tls, running, load, overridden, start, start_server, start_loaded, with_tls, tasks,
  listener, client, mqtt_tasks, one,
}

abbrev pub listens : Kind → Bool
listens rest = true
listens tcp = true
listens mqtt = false
listens mqtt_pty = false

-- A listener has the token, and TLS exactly if a certificate is configured, and a key.
abbrev pub IsGuarded : Config → Task → Type 0
IsGuarded c t =
    listens t.kind ≡ true
    → (t.auth_token ≡ c.token)
      × (t.tls ≡ is_some c.server.tls_cert)
      × (t.tls ≡ is_some c.server.tls_key)

abbrev AllGuarded : Config → Start → Type 0
AllGuarded c (running s) = All (IsGuarded c) s.tasks
AllGuarded c no_config = Unit
AllGuarded c half_tls = Unit
AllGuarded c bad_tls = Unit

module _ (c : Config) where
  tasks-IsGuarded :
      (tls : Bool)
      → tls ≡ is_some c.server.tls_cert
      → tls ≡ is_some c.server.tls_key
      → All (IsGuarded c) (tasks c tls)
  unfolding tasks
  tasks-IsGuarded tls e f =
      All-append (IsGuarded c) _ _ (own rest c.transport.rest)
        (All-append (IsGuarded c) _ _ (clients c.transport.mqtt) (own tcp c.transport.tcp))
    where
      own : (k : Kind) (o : Option ℕ) → All (IsGuarded c) (one (listener c tls k) o)
      own k none = tt
      own k (some p) = (λ h. (refl, e, f), tt)

      silent : (k : Kind) (m : MqttConfig) → listens k ≡ false → IsGuarded c (client c k m)
      silent k m h = λ g. absurd (ground (arith, g, h))

      pty :
          (m : MqttConfig) (o : Option ℕ)
          → All (IsGuarded c) (one (λ (b : ℕ). client c mqtt_pty m) o)
      pty m none = tt
      pty m (some b) = (silent mqtt_pty m refl, tt)

      clients : (o : Option MqttConfig) → All (IsGuarded c) (mqtt_tasks c o)
      clients none = tt
      clients (some m) =
          All-append (IsGuarded c) (one (λ (b : ℕ). client c mqtt_pty m) c.transport.mqtt_pty)
            (client c mqtt m ∷ []) (pty m c.transport.mqtt_pty) (silent mqtt m refl, tt)

  start-AllGuarded : (loads : Bool) → AllGuarded c (start c loads)
  unfolding start
  start-AllGuarded loads = by_files c.server.tls_cert c.server.tls_key refl refl
    where
      by_files :
          (cert key : Option Text)
          → c.server.tls_cert ≡ cert
          → c.server.tls_key ≡ key
          → AllGuarded c (with_tls c loads cert key)
      by_files (some cert) none e f = tt
      by_files none (some key) e f = tt
      by_files none none e f = tasks-IsGuarded false (sym (ap is_some e)) (sym (ap is_some f))
      by_files (some cert) (some key) e f = elim (Bool-cases loads) [
        | inl q ↦ rw q (tasks-IsGuarded true (sym (ap is_some e)) (sym (ap is_some f)))
        | inr q ↦ rw q tt
      ]

-- Whatever the configuration and the overrides are, if the server starts, its REST and TCP listeners
-- ask for the configured token, and each has TLS if and only if a certificate is configured, and if
-- and only if a key is: with one of the two nothing listens in plain text.
pub start_server-IsGuarded :
    (default_shell : Text) (file : Option (Option ConfigFile)) (shell bind : Option Text)
    (loads : Bool) (c : Config) (s : Server)
    → load default_shell file ≡ some c
    → start_server default_shell file shell bind loads ≡ running s
    → All (IsGuarded c) s.tasks
unfolding start_server overridden
start_server-IsGuarded default_shell file shell bind loads c s e h =
    subst (AllGuarded c) (sym (ap (start_loaded shell bind loads) e) ∙ h)
      (start-AllGuarded (overridden shell bind c) loads)
