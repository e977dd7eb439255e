-- ===== src/Worker.antt =====
-- The background workers (worker/worker.go). The two tickers give a sequence of ticks; the log is left
-- out.
pub mod Runs
pub mod Ticking
use link_nest.Base.{ℕ, ◌-◌, ◌*◌, pos, List, [], ◌∷◌}
use link_nest.Text.{Text, lit}
use link_nest.Platform.{Platform}
use link_nest.Models.{Result, ok, err}
use link_nest.Metrics.{Registry, inc, gauge, observe}
use link_nest.Store.World.{World}
use link_nest.Store.Rollup.{cleanup_old_clicks}
use link_nest.Store.Rollup.Hour.{aggregate_previous_hour}
use link_nest.Store.Rollup.Day.{aggregate_day}

pub data Job : Type 0 where
  hourly daily : Job

-- A tick: what to run, the time of the program, and how long the roll-up takes.
pub record Tick : Type 0 where
  pub job : Job
  pub now : ℕ
  pub duration : ℕ

abbrev pub failures_total : Text
failures_total = lit "linknest_worker_failures_total"

abbrev pub hourly_runs_total : Text
hourly_runs_total = lit "linknest_worker_hourly_runs_total"

abbrev pub daily_runs_total : Text
daily_runs_total = lit "linknest_worker_daily_runs_total"

-- What the metrics record of an hourly run.
abbrev pub hourly_ended : Result ℕ → Registry → Registry
hourly_ended (err e) m = inc failures_total 1 m
hourly_ended (ok rows) m =
    gauge (lit "linknest_worker_hourly_rows_processed") rows (inc hourly_runs_total 1 m)

abbrev pub after_hourly : ℕ → Registry → Result ℕ × World → Registry × World
after_hourly duration m (result, w) =
    (hourly_ended result (observe (lit "linknest_worker_hourly_duration") duration m), w)

unfoldable pub run_hourly : Platform → ℕ → ℕ → Registry → World → Registry × World
run_hourly p now duration m w = after_hourly duration m (aggregate_previous_hour p now w)

-- The gauge of deleted rows, if the clean-up succeeds.
abbrev pub cleaned : Result ℕ → Registry → Registry
cleaned (ok deleted) m = gauge (lit "linknest_worker_retention_rows_deleted") deleted m
cleaned (err e) m = m

abbrev pub after_cleanup : ℕ → Registry → Result ℕ × World → Registry × World
after_cleanup rows m (result, w) = (
  gauge (lit "linknest_worker_daily_rows_processed") rows
      (inc daily_runs_total 1 (cleaned result m)),
  w,
)

abbrev pub daily_ended : Registry → Result ℕ × World → Registry × World
daily_ended m (err e, w) = (inc failures_total 1 m, w)
daily_ended m (ok rows, w) = after_cleanup rows m (cleanup_old_clicks 90 w)

unfoldable pub run_daily : Platform → ℕ → ℕ → Registry → World → Registry × World
run_daily p now duration m w =
    daily_ended (observe (lit "linknest_worker_daily_duration") duration m)
      (aggregate_day p (now - 24 * 3600) w)

unfoldable pub run_job : Platform → Job → ℕ → ℕ → Registry → World → Registry × World
unfolding run_hourly run_daily
run_job p hourly = run_hourly p
run_job p daily = run_daily p

-- The loop of `Start`, until its context is done.
unfoldable pub start : Platform → List Tick → Registry → World → Registry × World
unfolding run_job
start p [] m w = (m, w)
start p (t ∷ ts) m w = let (m', w') = run_job p t.job t.now t.duration m w in start p ts m' w'
