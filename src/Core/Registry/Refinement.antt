-- ===== src/Core/Registry/Refinement.antt =====
-- hermytt-core/src/registry.rs simulates the registry of Core/Registry/Sightings.antt.
use hermytt.Prelude.{
  ℕ, ◌-◌, ◌≤◌, ◌<◌, ◌≡◌, refl, sym, ap, ◌∙◌, List, [], ◌∷◌, some, is_some, ltb, arith, ◌⊎◌, inl,
  inr, map, Bool-cases, ltb→lt, subst,
}
use hermytt.Prelude.Text.{Text, eq_text}
use hermytt.Prelude.Map
use hermytt.Prelude.Map.{Map}
use hermytt.Core.Registry.{
  ServiceInfo, ServiceRegistry, ServiceStatus, connected, seen, register, heartbeat, unregister,
  expire, expire_stale, list, get, expire_after, new,
}
use hermytt.Core.Registry.Sightings.{
  Op, registers, unregisters, beats, lists, gets, found, all_services, one_service, step, answers,
  Sighting, described, again, option_map, spec_step, spec_answers, InOrder, after,
}

-- A stored entry of a sighting: a status may lag behind, but is never wrong about a silence.
abbrev Agrees : ℕ → ServiceInfo → Sighting → Type 0
Agrees t v s =
    (v ≡ record s.info { status = v.status; last_seen_instant = some s.at; last_seen = s.epoch })
    × ((v.status ≡ connected) ⊎ (expire_after < t - s.at))

data Tracks (t : ℕ) : Map ServiceInfo → Map Sighting → Type 0 where
  empty : Tracks t [] []
  also :
      {k : Text} {v : ServiceInfo} {s : Sighting} {m : Map ServiceInfo} {n : Map Sighting}
      → Agrees t v s
      → Tracks t m n
      → Tracks t ((k, v) ∷ m) ((k, s) ∷ n)

abbrev entry : ServiceStatus → Sighting → ServiceInfo
entry q s = record s.info { status = q; last_seen_instant = some s.at; last_seen = s.epoch }

expire-entry :
    (t u : ℕ) (q : ServiceStatus) (s : Sighting)
    → t ≤ u
    → (q ≡ connected) ⊎ (expire_after < t - s.at)
    → expire u (entry q s) ≡ described u s
unfolding expire
expire-entry t u q s le (inl c) = ground (arith, c)
expire-entry t u q s le (inr l) = ground (arith, l)

expire-described :
    (t u : ℕ) (v : ServiceInfo) (s : Sighting) → t ≤ u → Agrees t v s → expire u v ≡ described u s
expire-described t u v s le h = ap (expire u) h.0 ∙ expire-entry t u v.status s le h.1

described-Agrees : (u : ℕ) (s : Sighting) → Agrees u (described u s) s
described-Agrees u s = elim (Bool-cases (ltb expire_after (u - s.at))) [
  | inl e ↦ (refl, inr (ltb→lt _ _ e))
  | inr e ↦ (refl, inl (rw e refl))
]

later-Agrees : (t u : ℕ) (v : ServiceInfo) (s : Sighting) → t ≤ u → Agrees t v s → Agrees u v s
later-Agrees t u v s le (e, inl c) = (e, inl c)
later-Agrees t u v s le (e, inr l) = (e, inr (omega (arith, l, le)))

later-Tracks :
    (t u : ℕ) (m : Map ServiceInfo) (n : Map Sighting) → t ≤ u → Tracks t m n → Tracks u m n
later-Tracks t u _ _ le empty = empty
later-Tracks t u _ _ le (also {v = v} {s = s} {m = m} {n = n} a h) =
    also (later-Agrees t u v s le a) (later-Tracks t u m n le h)

expire_stale-Tracks :
    (t u : ℕ) (m : Map ServiceInfo) (n : Map Sighting)
    → t ≤ u
    → Tracks t m n
    → Tracks u (expire_stale u m) n
      × (Map.values (expire_stale u m) ≡ map (described u) (Map.values n))
unfolding expire_stale
expire_stale-Tracks t u _ _ le empty = (empty, refl)
expire_stale-Tracks t u _ _ le (also {v = v} {s = s} {m = m} {n = n} a h) =
    let (rest, same) = expire_stale-Tracks t u m n le h in
    let now = expire-described t u v s le a in
    (also (subst (λ w. Agrees u w s) (sym now) (described-Agrees u s)) rest, rw (now, same) refl)

lookup-Tracks :
    (t : ℕ) (k : Text) (m : Map ServiceInfo) (n : Map Sighting)
    → Tracks t m n
    → is_some (Map.lookup k m) ≡ is_some (Map.lookup k n)
unfolding Map.lookup
lookup-Tracks t k _ _ empty = refl
lookup-Tracks t k _ _ (also {m = m} {n = n} a h) = ground (arith, lookup-Tracks t k m n h)

lookup-described :
    (t u : ℕ) (k : Text) (m : Map ServiceInfo) (n : Map Sighting)
    → t ≤ u
    → Tracks t m n
    → Map.lookup k (expire_stale u m) ≡ option_map (described u) (Map.lookup k n)
unfolding Map.lookup expire_stale
lookup-described t u k _ _ le empty = refl
lookup-described t u k _ _ le (also {v = v} {s = s} {m = m} {n = n} a h) =
    rw (expire-described t u v s le a) (ground (arith, lookup-described t u k m n le h))

insert-Tracks :
    (t : ℕ) (k : Text) (v : ServiceInfo) (s : Sighting) (m : Map ServiceInfo) (n : Map Sighting)
    → Agrees t v s
    → Tracks t m n
    → Tracks t (Map.insert k v m) (Map.insert k s n)
unfolding Map.insert
insert-Tracks t k v s _ _ a empty = also a empty
insert-Tracks t k v s _ _ a (also {k = j} {m = m} {n = n} b h) = elim (Bool-cases (eq_text j k)) [
  | inl q ↦ rw q (also a h)
  | inr q ↦ rw q (also b (insert-Tracks t k v s m n a h))
]

remove-Tracks :
    (t : ℕ) (k : Text) (m : Map ServiceInfo) (n : Map Sighting)
    → Tracks t m n
    → Tracks t (Map.remove k m) (Map.remove k n)
unfolding Map.remove
remove-Tracks t k _ _ empty = empty
remove-Tracks t k _ _ (also {k = j} {m = m} {n = n} b h) = elim (Bool-cases (eq_text j k)) [
  | inl q ↦ rw q (remove-Tracks t k m n h)
  | inr q ↦ rw q (also b (remove-Tracks t k m n h))
]

update-Tracks :
    (t now epoch : ℕ) (k : Text) (m : Map ServiceInfo) (n : Map Sighting)
    → t ≤ now
    → Tracks t m n
    → Tracks now (Map.update k (seen now epoch) m) (Map.update k (again now epoch) n)
unfolding Map.update
update-Tracks t now epoch k _ _ le empty = empty
update-Tracks t now epoch k _ _ le (also {k = j} {v = w} {s = r} {m = m} {n = n} b h) =
    elim (Bool-cases (eq_text j k)) [
      | inl q ↦ rw q (also (ap (seen now epoch) b.0, inl refl) (later-Tracks t now m n le h))
      | inr q ↦ rw q (also (later-Agrees t now w r le b) (update-Tracks t now epoch k m n le h))
    ]

-- One operation: the same answer, and the entries still track the sightings.
step-Tracks :
    (t : ℕ) (op : Op) (r : ServiceRegistry) (n : Map Sighting)
    → t ≤ after t op
    → Tracks t r.services n
    → ((step r op).1 ≡ (spec_step n op).1)
      × Tracks (after t op) (step r op).0.services (spec_step n op).0
unfolding step spec_step register unregister heartbeat list get
step-Tracks t (registers info now epoch) r n le h = (
  refl,
  insert-Tracks now info.name (seen now epoch info) _ r.services n (refl, inl refl)
      (later-Tracks t now r.services n le h),
)
step-Tracks t (unregisters name) r n le h =
    (ap found (lookup-Tracks t name r.services n h), remove-Tracks t name r.services n h)
step-Tracks t (beats name now epoch) r n le h = (
  ap found (lookup-Tracks t name r.services n h),
  update-Tracks t now epoch name r.services n le h,
)
step-Tracks t (lists now) r n le h =
    let (kept, same) = expire_stale-Tracks t now r.services n le h in (ap all_services same, kept)
step-Tracks t (gets name now) r n le h = (
  ap one_service (lookup-described t now name r.services n le h),
  (expire_stale-Tracks t now r.services n le h).0,
)

answers_agree :
    (t : ℕ) (ops : List Op) (r : ServiceRegistry) (n : Map Sighting)
    → InOrder t ops
    → Tracks t r.services n
    → answers r ops ≡ spec_answers n ops
unfolding answers spec_answers
answers_agree t [] r n o h = refl
answers_agree t (op ∷ ops) r n (le, o) h =
    let (same, kept) = step-Tracks t op r n le h in
    rw same (
      ap (λ w. (spec_step n op).1 ∷ w)
        (answers_agree (after t op) ops (step r op).0 (spec_step n op).0 o kept))

-- From an empty registry, for any operations in the order of the clock, every answer is the one of
-- the registry that only remembers sightings and computes each status when it is asked, connected
-- exactly up to 30 seconds after the last sighting: that stale entries are marked only in queries
-- cannot be observed.
pub answers-spec : (t : ℕ) (ops : List Op) → InOrder t ops → answers new ops ≡ spec_answers [] ops
unfolding new
answers-spec t ops o = answers_agree t ops new [] o empty
