-- ===== src/Store/Reach/Runs.antt =====
-- Calls of store/store.go one after another, each one of those allowed, with reads between them.
use link_nest.Base.{ℕ, ◌≡◌, ◌≢◌, refl, ap, sym, ◌∙◌, some, List, [], ◌∷◌}
use mathlib.Core.Path.{subst}
use link_nest.Platform.{Platform}
use link_nest.Store.World.{World}
use link_nest.Store.World.Robust.{quiet}
use link_nest.Store.World.ReadOnly.{ReadOnly}
use link_nest.Store.Reach.{Op, run_op, Reachable, ran, passed, next}
use link_nest.Store.Reach.Sound.{owner_of}
use link_nest.Store.Reach.Shown.{shown, run_op-shown}

-- Calls, the last one first, lead from `w` to the second world; what is allowed depends on the calls
-- before.
pub data Runs (p : Platform) (Allowed : List Op → Op → Type 0) (w : World)
    : List Op → World → Type 0 where
  done : Runs p Allowed w [] w
  called :
      {calls : List Op} {v : World} (o : Op)
      → Allowed calls o
      → Runs p Allowed w calls v
      → Runs p Allowed w (o ∷ calls) (run_op p o v)
  -- nothing has changed but the faults to come
  looked :
      {calls : List Op} {v : World} (u : World)
      → quiet u ≡ quiet v
      → Runs p Allowed w calls v
      → Runs p Allowed w calls u

-- From `w` such calls lead to `v`.
pub record RunsTo (p : Platform) (Allowed : List Op → Op → Type 0) (w v : World) : Type 0 where
  pub calls : List Op
  pub runs : Runs p Allowed w calls v

module _ {p : Platform} {Allowed : List Op → Op → Type 0} {w : World} where
  pub Runs-read :
      {X : Type 0} {calls : List Op} {v : World} (m : World → X × World)
      → ReadOnly m
      → Runs p Allowed w calls v
      → Runs p Allowed w calls (m v).1
  Runs-read {v = v} m h runs = looked (m v).1 (h.same v) runs

  pub RunsTo-read :
      {X : Type 0} {v : World} (m : World → X × World)
      → ReadOnly m
      → RunsTo p Allowed w v
      → RunsTo p Allowed w (m v).1
  RunsTo-read m h to = record { calls = to.calls; runs = Runs-read m h (to.runs) }

  pub to : {calls : List Op} {v : World} → Runs p Allowed w calls v → RunsTo p Allowed w v
  to {calls} runs = record { calls = calls; runs = runs }

  -- The states on the way can be reached.
  pub Runs-Reachable :
      {calls : List Op} {v : World} → Reachable p w → Runs p Allowed w calls v → Reachable p v
  Runs-Reachable r done = r
  Runs-Reachable r (called o a runs) = next (Runs-Reachable r runs) (ran o)
  Runs-Reachable r (looked {v} u e runs) =
      subst (Reachable p) (ap (λ (x : World). record x { faults = u.faults }) (sym e))
        (next (Runs-Reachable r runs) (passed v.now u.faults))

  -- If no call allowed is one of the user `v` on links, the links of `v` are as before.
  pub Runs-shown :
      (v : ℕ)
      → ((calls : List Op) (o : Op) → Allowed calls o → (u : ℕ) → owner_of o ≡ some u → v ≢ u)
      → {calls : List Op} {w' : World} → Runs p Allowed w calls w'
      → shown v w'.tables.links ≡ shown v w.tables.links
  Runs-shown v other done = refl
  Runs-shown v other (called {v = u} o a runs) =
      run_op-shown p v o u (other _ o a) ∙ Runs-shown v other runs
  Runs-shown v other (looked u e runs) =
      ap (λ (x : World). shown v x.tables.links) e ∙ Runs-shown v other runs

  -- Without a call nothing has changed but the faults to come.
  pub Runs-still : {v : World} → Runs p Allowed w [] v → quiet v ≡ quiet w
  Runs-still done = refl
  Runs-still (looked u e runs) = e ∙ Runs-still runs
