-- ===== src/Process.antt =====
-- The process of cmd/linknest/main.go: starting up, then requests and ticks of the workers, each on the
-- world that the one before left. Logs are left out.
pub mod History
pub mod Boots
pub mod Counted
mod Tests
use link_nest.Base.{ℕ, Option, none, some, List, [], ◌∷◌, if◌then◌else◌}
use link_nest.Text.{Text}
use link_nest.Models.{DriverError, Result}
use link_nest.Config.{Config, load}
use link_nest.Metrics.{Registry}
use link_nest.Store.World.{World}
use link_nest.Http.{Request}
use link_nest.Http.Pages.{Server, Response}
use link_nest.Http.Routes.{Library, serve}
use link_nest.Worker.{Tick, run_job}
use link_nest.Startup.{Driver, Attempt, Pool, open_pool, App, new_app}

-- How `main` gets on: it ends with a message, or it listens.
pub data Boot : Type 0 where
  open_failed migrate_failed : Boot
  listening : App → Boot

abbrev pub opened : Attempt → Config → Option Pool → Boot
opened a cfg none = open_failed
opened a cfg (some pool) = if a.migrates then listening (new_app cfg pool) else migrate_failed

-- From `config.Load` to `app.New`.
unfoldable pub boot : Driver → (Text → Text) → Attempt → Boot
unfolding load open_pool
boot d getenv a = let cfg = load getenv in opened a cfg (open_pool d a cfg)

-- What the process handles: a request, with the time, the outcome of its random source and how long it
-- takes; a tick; or the database's clock goes on, and other calls are going to fail.
pub data Event : Type 0 where
  requested : Request → ℕ → Result Text → ℕ → Event
  ticked : Tick → Event
  elapsed : ℕ → List (Option DriverError) → Event

-- What comes to the process: something to handle, or one of the signals that `main` waits for.
pub data Input : Type 0 where
  event : Event → Input
  interrupt : Input

module _ (s : Server) (l : Library) where
  -- The response, if it was a request.
  unfoldable pub react : Event → Registry → World → Option Response × Registry × World
  unfolding serve run_job
  react (requested r now random duration) m w =
      let (response, m', w') = serve s l r now random duration m w in (some response, m', w')
  react (ticked t) m w =
      let (m', w') = run_job s.platform t.job t.now t.duration m w in (none, m', w')
  react (elapsed now faults) m w = (none, m, record w { now = now; faults = faults })

  abbrev answered : Option Response → List Response → List Response
  answered none rest = rest
  answered (some response) rest = response ∷ rest

  -- The responses, in the order of the requests. After a signal the server is shut down, and `main` ends.
  unfoldable pub process : List Input → Registry → World → List Response × Registry × World
  unfolding react
  process [] m w = ([], m, w)
  process (interrupt ∷ es) m w = ([], m, w)
  process (event e ∷ es) m w =
      let (response, m', w') = react e m w in
      let (responses, m'', w'') = process es m' w' in (answered response responses, m'', w'')
