-- ===== src/Server/Dashboard.antt =====
-- hermytt-server/src/main.rs: what the dashboard shows of the transports.
use hermytt.Prelude.{
  ℕ, ◌≡◌, refl, sym, ap, ◌∙◌, Bool, true, false, List, [], ◌∷◌, ◌++◌, Option, none, some,
  Bool-cases, inl, inr, subst, keep, keep-append, map,
}
use hermytt.Prelude.Text.{Text}
use hermytt.Server.{
  Config, ConfigFile, MqttConfig, Kind, rest, mqtt, mqtt_pty, tcp, Task, TransportInfo, Server,
  Start, no_config, half_tls, bad_tls, running, load, overridden, start, start_server, start_loaded,
  with_tls, tasks, transport_info, listener, client, mqtt_tasks, mqtt_info, info, endpoint, one,
}

abbrev pub same_kind : Kind → Kind → Bool
same_kind rest rest = true
same_kind rest mqtt_pty = false
same_kind rest mqtt = false
same_kind rest tcp = false
same_kind mqtt_pty rest = false
same_kind mqtt_pty mqtt_pty = true
same_kind mqtt_pty mqtt = false
same_kind mqtt_pty tcp = false
same_kind mqtt rest = false
same_kind mqtt mqtt_pty = false
same_kind mqtt mqtt = true
same_kind mqtt tcp = false
same_kind tcp rest = false
same_kind tcp mqtt_pty = false
same_kind tcp mqtt = false
same_kind tcp tcp = true

-- A task as the dashboard would show it.
abbrev pub shown : Task → TransportInfo
shown t = record { kind = t.kind; endpoint = endpoint t.host t.port }

abbrev pub infos_of : Kind → List TransportInfo → List TransportInfo
infos_of k = keep (λ i. same_kind k i.kind)

abbrev pub tasks_of : Kind → List Task → List Task
tasks_of k = keep (λ t. same_kind k t.kind)

abbrev Shown : Kind → List TransportInfo → List Task → Type 0
Shown k is ts = infos_of k is ≡ map shown (tasks_of k ts)

map-shown_append : (ts us : List Task) → map shown (ts ++ us) ≡ map shown ts ++ map shown us
map-shown_append [] us = refl
map-shown_append (t ∷ ts) us = ap (λ w. shown t ∷ w) (map-shown_append ts us)

append-Shown :
    (k : Kind) (is js : List TransportInfo) (ts us : List Task)
    → Shown k is ts
    → Shown k js us
    → Shown k (is ++ js) (ts ++ us)
append-Shown k is js ts us h g =
    keep-append (λ i. same_kind k i.kind) is js
    ∙ ap (λ w. w ++ infos_of k js) h
    ∙ ap (λ w. map shown (tasks_of k ts) ++ w) g
    ∙ sym (map-shown_append (tasks_of k ts) (tasks_of k us))
    ∙ sym (ap (map shown) (keep-append (λ t. same_kind k t.kind) ts us))

AllShown : Start → Type 0
AllShown (running s) = (k : Kind) → infos_of k s.transport_info ≡ map shown (tasks_of k s.tasks)
AllShown no_config = Unit
AllShown half_tls = Unit
AllShown bad_tls = Unit

module _ (c : Config) where
  own-Shown :
      (k j : Kind) (tls : Bool) (o : Option ℕ)
      → Shown k (one (info c j c.server.bind) o) (one (listener c tls j) o)
  own-Shown k j tls none = refl
  own-Shown k j tls (some p) = elim (Bool-cases (same_kind k j)) [
    | inl q ↦ rw q refl
    | inr q ↦ rw q refl
  ]

  mqtt-Shown : (k : Kind) (o : Option MqttConfig) → Shown k (mqtt_info c o) (mqtt_tasks c o)
  mqtt-Shown k none = refl
  mqtt-Shown k (some m) = by_pty k c.transport.mqtt_pty
    where
      by_pty :
          (k : Kind) (o : Option ℕ)
          → Shown k
              (info c mqtt m.broker m.port ∷ one (λ (b : ℕ). info c mqtt_pty m.broker m.port) o)
              (one (λ (b : ℕ). client c mqtt_pty m) o ++ client c mqtt m ∷ [])
      by_pty rest none = refl
      by_pty rest (some b) = refl
      by_pty mqtt none = refl
      by_pty mqtt (some b) = refl
      by_pty mqtt_pty none = refl
      by_pty mqtt_pty (some b) = refl
      by_pty tcp none = refl
      by_pty tcp (some b) = refl

  tasks-Shown : (tls : Bool) (k : Kind) → Shown k (transport_info c) (tasks c tls)
  unfolding tasks transport_info
  tasks-Shown tls k =
      append-Shown k _ _ _ _ (own-Shown k rest tls c.transport.rest) (
        append-Shown k _ _ _ _ (mqtt-Shown k c.transport.mqtt)
          (own-Shown k tcp tls c.transport.tcp))

  start-AllShown : (loads : Bool) → AllShown (start c loads)
  unfolding start AllShown
  start-AllShown loads = by_files c.server.tls_cert c.server.tls_key
    where
      by_files : (cert key : Option Text) → AllShown (with_tls c loads cert key)
      by_files (some cert) none = tt
      by_files none (some key) = tt
      by_files none none = tasks-Shown false
      by_files (some cert) (some key) = elim (Bool-cases loads) [
        | inl q ↦ rw q (tasks-Shown true)
        | inr q ↦ rw q tt
      ]

loaded-AllShown :
    (shell bind : Option Text) (loads : Bool) (o : Option Config)
    → AllShown (start_loaded shell bind loads o)
unfolding AllShown
loaded-AllShown shell bind loads none = tt
loaded-AllShown shell bind loads (some c) = start-AllShown (overridden shell bind c) loads

-- If the server starts, the dashboard shows, for each kind of transport, just those that were
-- started, each with its address and port, or those of its broker.
pub start_server-shown :
    (default_shell : Text) (file : Option (Option ConfigFile)) (shell bind : Option Text)
    (loads : Bool) (s : Server)
    → start_server default_shell file shell bind loads ≡ running s
    → (k : Kind) → infos_of k s.transport_info ≡ map shown (tasks_of k s.tasks)
unfolding start_server AllShown
start_server-shown default_shell file shell bind loads s h =
    subst AllShown h (loaded-AllShown shell bind loads (load default_shell file))
