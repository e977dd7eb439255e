-- ===== src/Process/History.antt =====
-- What holds of the database after every history of the process.
use link_nest.Base.{ℕ, ◌≡◌, ◌≢◌, refl, ◌∙◌, some, none-ne-some, List, [], ◌∷◌}
use link_nest.Platform.{Platform}
use link_nest.Metrics.{Registry}
use link_nest.Store.World.{World}
use link_nest.Store.Reach.{Reachable, next, passed, Op}
use link_nest.Store.Reach.Sound.{owner_of, Reachable-IsNumbered}
use link_nest.Store.Reach.Numbered.{IsNumbered}
use link_nest.Store.Reach.Logged.{IsLogged, Reachable-IsLogged}
use link_nest.Store.Reach.Enrolled.{IsEnrolled, Reachable-IsEnrolled}
use link_nest.Store.Reach.Shown.{shown}
use link_nest.Store.Reach.Runs.{Runs-Reachable, Runs-shown}
use link_nest.Http.Pages.{Server}
use link_nest.Http.Routes.{Library}
use link_nest.Http.Routes.Serving.{serve-Permitted}
use link_nest.Http.Routes.Apart.{WithoutSession, serve-shown}
use link_nest.Worker.{Job}
use link_nest.Worker.Ticking.{Ticks, rolls_hour, rolls_day, cleans, run_job-Ticks}
use link_nest.Process.{Event, requested, ticked, elapsed, Input, event, interrupt, react, process}

-- Accounts, links and the click log are as the database should hold them.
abbrev pub IsSound : Platform → World → Type 0
IsSound p w = IsEnrolled p w × IsNumbered w × IsLogged w

module _ (s : Server) (l : Library) where
  pub react-Reachable :
      (e : Event) (m : Registry) (w : World)
      → Reachable s.platform w
      → Reachable s.platform (react s l e m w).2
  unfolding react
  react-Reachable (requested r now random duration) m w h =
      Runs-Reachable h (serve-Permitted s l r now random duration m w).runs
  react-Reachable (ticked t) m w h =
      Runs-Reachable h (run_job-Ticks s.platform t.now w t.job t.duration m).runs
  react-Reachable (elapsed now faults) m w h = next h (passed now faults)

  process-Reachable :
      (es : List Input) (m : Registry) (w : World)
      → Reachable s.platform w
      → Reachable s.platform (process s l es m w).2
  unfolding process
  process-Reachable [] m w h = h
  process-Reachable (interrupt ∷ es) m w h = h
  process-Reachable (event e ∷ es) m w h =
      let x = react s l e m w in process-Reachable es x.1 x.2 (react-Reachable e m w h)

  -- Whatever requests and ticks come to the process, in any order, on a database that could be reached:
  -- afterwards no two accounts share an email, a username or a public name; no two accounts, links or
  -- click events have the same id, and the ids are positive and below the next ones to be given; the
  -- accounts and the click log are in the order of their ids.
  pub process-IsSound :
      (es : List Input) (m : Registry) (w : World)
      → Reachable s.platform w
      → IsSound s.platform (process s l es m w).2
  process-IsSound es m w h =
      let after = process-Reachable es m w h in
      (
        Reachable-IsEnrolled s.platform after,
        Reachable-IsNumbered s.platform after,
        Reachable-IsLogged s.platform after,
      )

  -- If it is a request, it carries no session of the user `v`.
  abbrev pub AwayAt : ℕ → Event → World → Type 0
  AwayAt v (requested r now random duration) w = WithoutSession s r w v
  AwayAt v (ticked t) w = Unit
  AwayAt v (elapsed now faults) w = Unit

  -- No request that is handled carries a session of the user `v`, at the time when it comes.
  abbrev pub Away : ℕ → List Input → Registry → World → Type 0
  Away v [] m w = Unit
  Away v (interrupt ∷ es) m w = Unit
  Away v (event e ∷ es) m w = AwayAt v e w × Away v es (react s l e m w).1 (react s l e m w).2

  Ticks-owner :
      (v now : ℕ) (j : Job) (calls : List Op) (o : Op)
      → Ticks now j calls o
      → (u : ℕ) → owner_of o ≡ some u
      → v ≢ u
  Ticks-owner v now _ _ _ rolls_hour u own = absurd (none-ne-some _ own)
  Ticks-owner v now _ _ _ rolls_day u own = absurd (none-ne-some _ own)
  Ticks-owner v now _ _ _ cleans u own = absurd (none-ne-some _ own)

  react-shown :
      (v : ℕ) (e : Event) (m : Registry) (w : World)
      → AwayAt v e w
      → shown v (react s l e m w).2.tables.links ≡ shown v w.tables.links
  unfolding react
  react-shown v (requested r now random duration) m w h =
      serve-shown s l r now random duration m w v h
  react-shown v (ticked t) m w h =
      Runs-shown v (Ticks-owner v t.now t.job)
        (run_job-Ticks s.platform t.now w t.job t.duration m).runs
  react-shown v (elapsed now faults) m w h = refl

  -- Through every history of requests and ticks of which no request carries a session of the user
  -- `v`, whichever calls of the driver fail: the links of `v` stay as they were, in the same order, but
  -- for the counts of their clicks.
  pub process-shown :
      (v : ℕ) (es : List Input) (m : Registry) (w : World)
      → Away v es m w
      → shown v (process s l es m w).2.tables.links ≡ shown v w.tables.links
  unfolding process
  process-shown v [] m w h = refl
  process-shown v (interrupt ∷ es) m w h = refl
  process-shown v (event e ∷ es) m w (at_first, later) =
      let x = react s l e m w in process-shown v es x.1 x.2 later ∙ react-shown v e m w at_first
