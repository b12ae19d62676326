-- ===== src/Core/Registry/Expiry.antt =====
-- hermytt-core/src/registry.rs: the status of a service over time.
use hermytt.Prelude.{
  ℕ, ◌-◌, ◌≤◌, ◌≡◌, refl, ap, ◌∙◌, Bool, true, false, List, [], ◌∷◌, Option, none, some, is_some,
  ltb, if◌then◌else◌, arith, All, length, suc, ◌↔◌, ◌⊎◌,
}
use hermytt.Prelude.Text.{Text, eq_text, eq_text_refl}
use hermytt.Prelude.Map
use hermytt.Prelude.Map.{Map, lookup-insert, lookup-remove, lookup-update, map_option}
use hermytt.Core.Registry.{
  ServiceInfo, ServiceRegistry, ServiceStatus, connected, disconnected, seen, register, heartbeat,
  expire, expire_stale, list, get, expire_after,
}

lookup-expire_stale :
    (now : ℕ) (k : Text) (m : Map ServiceInfo)
    → Map.lookup k (expire_stale now m) ≡ map_option (expire now) (Map.lookup k m)
unfolding Map.lookup expire_stale
lookup-expire_stale now k [] = refl
lookup-expire_stale now k ((j, s) ∷ m) = ground (arith, lookup-expire_stale now k m)

length-expire_stale : (now : ℕ) (m : Map ServiceInfo) → length (expire_stale now m) ≡ length m
unfolding expire_stale
length-expire_stale now [] = refl
length-expire_stale now ((k, s) ∷ m) = ap suc (length-expire_stale now m)

-- The queries made between two sightings of a service: `list` and `get`, each at its time.
pub data Query : Type 0 where
  lists : ℕ → Query
  gets : Text → ℕ → Query

pub query : ServiceRegistry → Query → ServiceRegistry
query r (lists now) = (list r now).0
query r (gets name now) = (get r name now).0

pub queries : ServiceRegistry → List Query → ServiceRegistry
unfolding query list get
queries r [] = r
queries r (q ∷ qs) = queries (query r q) qs

abbrev pub time : Query → ℕ
time (lists now) = now
time (gets name now) = now

-- A query was late for a service last seen at `last`.
abbrev any_late : ℕ → List Query → Bool
any_late last [] = false
any_late last (q ∷ qs) = if ltb expire_after (time q - last) then true else any_late last qs

-- What is known of a service that was seen at `last`, after some queries.
abbrev known : ℕ → List Query → ServiceInfo → ServiceInfo
known last qs s = if any_late last qs then record s { status = disconnected } else s

query_expires :
    (r : ServiceRegistry) (q : Query) (k : Text)
    → Map.lookup k (query r q).services ≡ map_option (expire (time q)) (Map.lookup k r.services)
unfolding query list get
query_expires r (lists now) k = lookup-expire_stale now k r.services
query_expires r (gets name now) k = lookup-expire_stale now k r.services

expire_seen :
    (t : ℕ) (s : ServiceInfo) (last : ℕ)
    → s.last_seen_instant ≡ some last
    → expire t s ≡ (if ltb expire_after (t - last) then record s { status = disconnected } else s)
unfolding expire
expire_seen t s last e = ground arith

expire-known :
    (q : Query) (qs : List Query) (s : ServiceInfo) (last : ℕ)
    → s.last_seen_instant ≡ some last
    → (known last qs (expire (time q) s) ≡ known last (q ∷ qs) s)
      × ((expire (time q) s).last_seen_instant ≡ some last)
expire-known q qs s last e =
    (ground (arith, expire_seen (time q) s last e), ground (arith, expire_seen (time q) s last e))

queries-known :
    (r : ServiceRegistry) (qs : List Query) (k : Text) (s : ServiceInfo) (last : ℕ)
    → s.last_seen_instant ≡ some last
    → Map.lookup k r.services ≡ some s
    → Map.lookup k (queries r qs).services ≡ some (known last qs s)
unfolding queries
queries-known r [] k s last e h = h
queries-known r (q ∷ qs) k s last e h =
    let (same, e') = expire-known q qs s last e in
    queries-known (query r q) qs k (expire (time q) s) last e'
      (query_expires r q k ∙ ap (map_option (expire (time q))) h)
    ∙ ap some same

any_late_before :
    (last t : ℕ) (qs : List Query)
    → All (λ q. time q ≤ t) qs
    → ltb expire_after (t - last) ≡ false
    → any_late last qs ≡ false
any_late_before last t [] a h = refl
any_late_before last t (q ∷ qs) a h = ground (arith, any_late_before last t qs a.1 h)

-- The status that 30 seconds of silence decide.
abbrev pub status_at : ℕ → ℕ → ServiceStatus
status_at last t = if ltb expire_after (t - last) then disconnected else connected

get-known :
    (r : ServiceRegistry) (qs : List Query) (k : Text) (s : ServiceInfo) (last t : ℕ)
    → s.last_seen_instant ≡ some last
    → s.status ≡ connected
    → Map.lookup k r.services ≡ some s
    → All (λ q. time q ≤ t) qs
    → (get (queries r qs) k t).1 ≡ some (record s { status = status_at last t })
unfolding get
get-known r qs k s last t e c h a =
    lookup-expire_stale t k (queries r qs).services
    ∙ rw (queries-known r qs k s last e h) (
        ap some (ground (arith, expire_seen t (known last qs s) last, any_late_before last t qs a)))

-- After a service registers, or after a heartbeat of a registered one, and whatever queries come
-- in between, a query at a later time `t` finds it connected exactly if it was seen at most 30
-- seconds before, with everything else as it was registered.
pub status_exact :
    (r : ServiceRegistry) (info : ServiceInfo) (now epoch : ℕ) (qs : List Query) (t : ℕ)
    → All (λ q. time q ≤ t) qs
    → ((get (queries (register r info now epoch) qs) info.name t).1
        ≡ some (record info {
          status = status_at now t;
          last_seen_instant = some now;
          last_seen = epoch;
        }))
      × ((old : ServiceInfo)
          → Map.lookup info.name r.services ≡ some old
          → ((heartbeat r info.name now epoch).1 ≡ true)
            × ((get (queries (heartbeat r info.name now epoch).0 qs) info.name t).1
                ≡ some (record old {
                  status = status_at now t;
                  last_seen_instant = some now;
                  last_seen = epoch;
                })))
unfolding register heartbeat
status_exact r info now epoch qs t a = (
  get-known _ qs info.name (seen now epoch info) now t refl refl
      (rw (lookup-insert, eq_text_refl info.name)) a,
  λ old h. (
    rw h,
    get-known _ qs info.name (seen now epoch old) now t refl refl
        (rw (lookup-update, eq_text_refl info.name, h)) a,
  ),
)

-- A heartbeat of a name that is not registered reports failure and registers nothing; one that is
-- there touches no other service.
pub heartbeat-others :
    (r : ServiceRegistry) (name k : Text) (now epoch : ℕ)
    → (((heartbeat r name now epoch).1 ≡ true) ↔ (is_some (Map.lookup name r.services) ≡ true))
      × (eq_text name k ≡ false ⊎ (Map.lookup k r.services ≡ none)
          → Map.lookup k (heartbeat r name now epoch).0.services ≡ Map.lookup k r.services)
unfolding heartbeat
heartbeat-others r name k now epoch = ((λ h. h, λ h. h), λ h. rw lookup-update (ground arith))

-- A query changes no more than the statuses: the same names are registered after it, in the same
-- number.
pub query-names :
    (r : ServiceRegistry) (qs : List Query) (k : Text)
    → (is_some (Map.lookup k (queries r qs).services) ≡ is_some (Map.lookup k r.services))
      × (length (queries r qs).services ≡ length r.services)
unfolding queries
query-names r [] k = (refl, refl)
query-names r (q ∷ qs) k =
    let (there, many) = query-names (query r q) qs k in
    (
      there ∙ ap is_some (query_expires r q k) ∙ is_some-map (Map.lookup k r.services),
      many ∙ length-query q,
    )
  where
    is_some-map : (o : Option ServiceInfo) → is_some (map_option (expire (time q)) o) ≡ is_some o
    is_some-map none = refl
    is_some-map (some s) = refl

    length-query : (q : Query) → length (query r q).services ≡ length r.services
    length-query (lists now) = length-expire_stale now r.services
    length-query (gets name now) = length-expire_stale now r.services
