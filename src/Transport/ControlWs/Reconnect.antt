-- ===== src/Transport/ControlWs/Reconnect.antt =====
-- Several control loops over time: loops connect, handle messages and end in any order. A loop ends
-- when its socket closes, or when the sender of its channel is dropped, which the hub does when it
-- replaces or removes the connection.
use hermytt.Prelude.{
  ℕ, ◌≡◌, ◌≢◌, refl, Bool, true, false, List, [], ◌∷◌, none, some, arith, ◌==◌, ◌&&◌, not, keep,
  any,
}
use hermytt.Prelude.Text.{Text, eq_text, eq_text_refl}
use hermytt.Prelude.Map
use hermytt.Prelude.Map.{lookup-insert, lookup-remove}
use hermytt.Core.ControlHub
use hermytt.Core.ControlHub.{ShyttiConnection, ShyttiMessage}
use hermytt.Core.Registry
use hermytt.Transport.ControlWs.{Plane, Env, connect, cleanup, null, handle_message}

-- A loop that runs: the name it registered and its channel.
pub record Loop : Type 0 where
  pub name : Text
  pub tx : ℕ

pub record World : Type 0 where
  pub plane : Plane
  pub loops : List Loop

-- The loop with this channel is no longer there.
abbrev without : ℕ → List Loop → List Loop
without tx = keep (λ l. not (l.tx == tx))

-- Whether a loop runs, and whether a channel is in use.
abbrev pub runs : Loop → List Loop → Bool
runs l = any (λ m. m.tx == l.tx && eq_text m.name l.name)

abbrev pub in_use : ℕ → List Loop → Bool
in_use tx = any (λ l. l.tx == tx)

-- The hub still holds the sender of this channel, under this name.
abbrev Held : Text → ℕ → Plane → Type 0
Held name tx p =
    (c : ShyttiConnection) × (Map.lookup name p.control_hub.connections ≡ some c) × (c.tx ≡ tx)

pub data Step (w : World) : World → Type 0 where
  connects :
      (env : Env) (endpoint name : Text) (tx : ℕ) {w' : World}
      → in_use tx w.loops ≡ false
      → w' ≡ record {
        plane = connect env endpoint name tx w.plane;
        loops = record { name = name; tx = tx } ∷ w.loops;
      }
      → Step w w'
  handles :
      (l : Loop) (env : Env) (endpoint : Text) (requested : Bool) (msg : ShyttiMessage) {w' : World}
      → runs l w.loops ≡ true
      → w' ≡ record w { plane = (handle_message env endpoint l.name requested msg w.plane).0 }
      → Step w w'
  -- The socket closed.
  closes :
      (l : Loop) {w' : World}
      → runs l w.loops ≡ true
      → w' ≡ record { plane = cleanup l.name w.plane; loops = without l.tx w.loops }
      → Step w w'
  -- The sender was dropped.
  loses :
      (l : Loop) {w' : World}
      → runs l w.loops ≡ true
      → ¬ Held l.name l.tx w.plane
      → w' ≡ record { plane = cleanup l.name w.plane; loops = without l.tx w.loops }
      → Step w w'

pub data Reach (w : World) : World → Type 0 where
  here : Reach w w
  next : {u v : World} → Reach w u → Step u v → Reach w v

connect-lookup :
    (env : Env) (endpoint name : Text) (tx : ℕ) (p : Plane)
    → Map.lookup name (connect env endpoint name tx p).control_hub.connections
      ≡ some (record { name = name; meta = null; tx = tx })
unfolding connect ControlHub.register
connect-lookup env endpoint name tx p = rw (lookup-insert, eq_text_refl name)

cleanup-lookup :
    (name : Text) (p : Plane)
    → (Map.lookup name (cleanup name p).control_hub.connections ≡ none)
      × (Map.lookup name (cleanup name p).registry.services ≡ none)
unfolding cleanup ControlHub.unregister Registry.unregister
cleanup-lookup name p =
    (rw (lookup-remove, eq_text_refl name), rw (lookup-remove, eq_text_refl name))

in_use-runs : (l : Loop) (ls : List Loop) → runs l ls ≡ true → in_use l.tx ls ≡ true
in_use-runs l [] h = cc
in_use-runs l (m ∷ ls) h = ground (arith, in_use-runs l ls)

-- A shytti that reconnects under its name while its old loop runs: the new connection replaces the
-- old one in the hub, so the old loop loses its sender and ends, and its cleanup removes the new
-- connection and the service. From any world in which the old loop runs, that is a way to a world
-- in which the new loop runs and nothing is registered under the name.
pub reconnect_unregisters :
    (w : World) (env : Env) (endpoint name : Text) (old new : ℕ)
    → runs (record { name = name; tx = old }) w.loops ≡ true
    → in_use new w.loops ≡ false
    → (w' : World) × Reach w w'
      × (runs (record { name = name; tx = new }) w'.loops ≡ true)
      × (Map.lookup name w'.plane.control_hub.connections ≡ none)
      × (Map.lookup name w'.plane.registry.services ≡ none)
reconnect_unregisters w env endpoint name old new ro rn =
    let l : Loop = record { name = name; tx = old } in
    let l' : Loop = record { name = name; tx = new } in
    let p = connect env endpoint name new w.plane in
    let ne : new ≢ old = λ e. cc (in_use-runs l w.loops ro, rn, e) in
    (
      record { plane = cleanup name p; loops = without old (l' ∷ w.loops) },
      next (next here (connects env endpoint name new rn refl)) (
          loses l (still ne) (λ h. ne (lost p h (connect-lookup env endpoint name new w.plane)))
            refl),
      ground (arith, ne, eq_text_refl name),
      (cleanup-lookup name p).0,
      (cleanup-lookup name p).1,
    )
  where
    still :
        new ≢ old
        → runs (record { name = name; tx = old }) (record { name = name; tx = new } ∷ w.loops)
          ≡ true
    still ne = ground (arith, ne, ro)

    lost :
        (p : Plane)
        → Held name old p
        → Map.lookup name p.control_hub.connections
          ≡ some (record { name = name; meta = null; tx = new })
        → new ≡ old
    lost p (c, e, t) f = ground (arith, e, t, f)
