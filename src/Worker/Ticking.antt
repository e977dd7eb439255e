-- ===== src/Worker/Ticking.antt =====
-- What a tick of the workers does to the database.
use link_nest.Base.{ℕ, List, [], ◌∷◌, ◌-◌, ◌*◌, ◌%◌}
use link_nest.Platform.{Platform}
use link_nest.Models.{Result, ok, err}
use link_nest.Metrics.{Registry}
use link_nest.Store.World.{World}
use link_nest.Store.Rollup.Hour.{aggregate_previous_hour}
use link_nest.Store.Reach.{Op, run_op, hourly_run, daily_run, clean_up}
use link_nest.Store.Reach.Runs.{Runs, done, called, RunsTo, to}
use link_nest.Worker.{Job, hourly, daily, run_hourly, daily_ended, run_daily, run_job}

-- The calls of the store that a tick at the time `now` may make.
pub data Ticks (now : ℕ) : Job → List Op → Op → Type 0 where
  rolls_hour : Ticks now hourly [] (hourly_run (now - 3600 - (now - 3600) % 3600))
  rolls_day : Ticks now daily [] (daily_run (now - 24 * 3600))
  cleans : Ticks now daily (daily_run (now - 24 * 3600) ∷ []) (clean_up 90)

module _ (p : Platform) (now : ℕ) (w : World) where
  daily_ended-Ticks :
      (m : Registry) (x : Result ℕ × World)
      → Runs p (Ticks now daily) w (daily_run (now - 24 * 3600) ∷ []) x.1
      → RunsTo p (Ticks now daily) w (daily_ended m x).1
  unfolding run_op
  daily_ended-Ticks m (ok rows, v) runs = to (called (clean_up 90) cleans runs)
  daily_ended-Ticks m (err e, v) runs = to runs

  -- A tick makes the calls of its job, and no others.
  pub run_job-Ticks :
      (j : Job) (duration : ℕ) (m : Registry)
      → RunsTo p (Ticks now j) w (run_job p j now duration m w).1
  unfolding run_job run_hourly run_daily aggregate_previous_hour run_op
  run_job-Ticks hourly duration m = to (called _ rolls_hour done)
  run_job-Ticks daily duration m = daily_ended-Ticks _ _ (called _ rolls_day done)
