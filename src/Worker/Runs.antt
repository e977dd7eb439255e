-- ===== src/Worker/Runs.antt =====
-- Every tick is counted, as a run or as a failure.
use Prim.Native.Nat.{◌^◌}
use mathlib.Core.Path.{subst}
use link_nest.Base.{
  ℕ, false, ◌+◌, ◌-◌, ◌*◌, ◌%◌, ◌≡◌, refl, sym, ap, ◌∙◌, List, [], ◌∷◌, ◌++◌, arith, length,
}
use link_nest.Text.{Text, lit, equals}
use link_nest.Platform.{Platform}
use link_nest.Models.{Result, ok, err}
use link_nest.Metrics.{Registry, new_registry, inc, gauge, observe}
use link_nest.Metrics.Counters.{
  Act, increment, set_gauge, observed, act_all, counter_of, total_of, counter_of-act_all,
}
use link_nest.Store.World.{World}
use link_nest.Store.Rollup.{cleanup_old_clicks}
use link_nest.Store.Rollup.Hour.{aggregate_previous_hour}
use link_nest.Store.Rollup.Day.{aggregate_day}
use link_nest.Worker.{
  Job, hourly, daily, Tick, failures_total, hourly_runs_total, daily_runs_total, after_hourly,
  run_hourly, after_cleanup, daily_ended, run_daily, run_job, start,
}

-- Runs and failures among the increments.
abbrev pub ticks_in : List Act → ℕ
ticks_in acts =
    total_of failures_total acts + total_of hourly_runs_total acts + total_of daily_runs_total acts

pub total_of-append :
    (name : Text) (xs ys : List Act)
    → total_of name (xs ++ ys) ≡ total_of name xs + total_of name ys
total_of-append name [] ys = omega arith
total_of-append name (increment k n ∷ xs) ys = ground (arith, total_of-append name xs ys)
total_of-append name (set_gauge k n ∷ xs) ys = total_of-append name xs ys
total_of-append name (observed k n ∷ xs) ys = total_of-append name xs ys

pub act_all-append :
    (xs ys : List Act) (m : Registry) → act_all (xs ++ ys) m ≡ act_all ys (act_all xs m)
act_all-append [] ys m = refl
act_all-append (increment k n ∷ xs) ys m = act_all-append xs ys (inc k n m)
act_all-append (set_gauge k n ∷ xs) ys m = act_all-append xs ys (gauge k n m)
act_all-append (observed k n ∷ xs) ys m = act_all-append xs ys (observe k n m)

-- A counter that the workers do not count in.
abbrev pub IsOther : Text → Type 0
IsOther name =
    (equals failures_total name ≡ false)
    × (equals hourly_runs_total name ≡ false)
    × (equals daily_runs_total name ≡ false)

-- What is recorded from one registry to another, with the number of ticks in it.
pub record Recorded (n : ℕ) (m m' : Registry) : Type 0 where
  pub acts : List Act
  pub recorded : act_all acts m ≡ m'
  pub counted : ticks_in acts ≡ n
  pub others : (name : Text) → IsOther name → total_of name acts ≡ 0

after_hourly-Recorded :
    (duration : ℕ) (m : Registry) (x : Result ℕ × World)
    → Recorded 1 m (after_hourly duration m x).0
unfolding equals
after_hourly-Recorded duration m (err e, w) = record {
  acts =
      observed (lit "linknest_worker_hourly_duration") duration ∷ increment failures_total 1 ∷ [];
  recorded = refl;
  counted = refl;
  others = λ name (f, h, d). ground arith;
}
after_hourly-Recorded duration m (ok rows, w) = record {
  acts =
      observed (lit "linknest_worker_hourly_duration") duration
      ∷ increment hourly_runs_total 1
      ∷ set_gauge (lit "linknest_worker_hourly_rows_processed") rows
      ∷ [];
  recorded = refl;
  counted = refl;
  others = λ name (f, h, d). ground arith;
}

after_cleanup-Recorded :
    (rows : ℕ) (m : Registry) (x : Result ℕ × World) → Recorded 1 m (after_cleanup rows m x).0
unfolding equals
after_cleanup-Recorded rows m (err e, w) = record {
  acts =
      increment daily_runs_total 1
      ∷ set_gauge (lit "linknest_worker_daily_rows_processed") rows
      ∷ [];
  recorded = refl;
  counted = refl;
  others = λ name (f, h, d). ground arith;
}
after_cleanup-Recorded rows m (ok deleted, w) = record {
  acts =
      set_gauge (lit "linknest_worker_retention_rows_deleted") deleted
      ∷ increment daily_runs_total 1
      ∷ set_gauge (lit "linknest_worker_daily_rows_processed") rows
      ∷ [];
  recorded = refl;
  counted = refl;
  others = λ name (f, h, d). ground arith;
}

daily_ended-Recorded : (m : Registry) (x : Result ℕ × World) → Recorded 1 m (daily_ended m x).0
unfolding equals
daily_ended-Recorded m (err e, w) = record {
  acts = increment failures_total 1 ∷ [];
  recorded = refl;
  counted = refl;
  others = λ name (f, h, d). ground arith;
}
daily_ended-Recorded m (ok rows, w) = after_cleanup-Recorded rows m (cleanup_old_clicks 90 w)

Recorded-append :
    {i j : ℕ} {a b c : Registry} → Recorded i a b → Recorded j b c → Recorded (i + j) a c
Recorded-append {i} {j} {a} x y = record {
  acts = x.acts ++ y.acts;
  recorded = act_all-append (x.acts) (y.acts) a ∙ ap (act_all (y.acts)) (x.recorded) ∙ y.recorded;
  counted = omega (
    arith,
    total_of-append failures_total (x.acts) (y.acts),
    total_of-append hourly_runs_total (x.acts) (y.acts),
    total_of-append daily_runs_total (x.acts) (y.acts),
    x.counted,
    y.counted,
  );
  others = λ name h.
      omega (arith, total_of-append name (x.acts) (y.acts), (x.others) name h, (y.others) name h);
}

Recorded-observe : (name : Text) (d : ℕ) (m : Registry) → Recorded 0 m (observe name d m)
Recorded-observe name d m = record {
  acts = observed name d ∷ [];
  recorded = refl;
  counted = refl;
  others = λ name h. refl;
}

pub run_job-Recorded :
    (p : Platform) (j : Job) (now duration : ℕ) (m : Registry) (w : World)
    → Recorded 1 m (run_job p j now duration m w).0
unfolding run_job run_hourly run_daily
run_job-Recorded p hourly now duration m w =
    after_hourly-Recorded duration m (aggregate_previous_hour p now w)
run_job-Recorded p daily now duration m w =
    let timed = observe (lit "linknest_worker_daily_duration") duration m in
    Recorded-append (Recorded-observe (lit "linknest_worker_daily_duration") duration m)
      (daily_ended-Recorded timed (aggregate_day p (now - 24 * 3600) w))

start-Recorded :
    (p : Platform) (ts : List Tick) (m : Registry) (w : World)
    → Recorded (length ts) m (start p ts m w).0
unfolding start
start-Recorded p [] m w = record {
  acts = [];
  recorded = refl;
  counted = refl;
  others = λ name h. refl;
}
start-Recorded p (t ∷ ts) m w =
    let x = run_job p t.job t.now t.duration m w in
    let one_more : 1 + length ts ≡ length (t ∷ ts) = omega arith in
    subst (λ n. Recorded n m (start p ts x.0 x.1).0) one_more
      (Recorded-append (run_job-Recorded p t.job t.now t.duration m w)
        (start-Recorded p ts x.0 x.1))

-- From a new registry, whatever ticks come and whichever calls of the driver fail: the counters of
-- failures, hourly runs and daily runs add up to the number of ticks, modulo 2^64.
pub start-counted :
    (p : Platform) (ts : List Tick) (w : World)
    → let m = (start p ts new_registry w).0 in
      (counter_of failures_total m + counter_of hourly_runs_total m + counter_of daily_runs_total m)
        % 2 ^ 64
      ≡ length ts % 2 ^ 64
start-counted p ts w =
    let x = start-Recorded p ts new_registry w in
    let count : (name : Text)
        → counter_of name (start p ts new_registry w).0 ≡ total_of name (x.acts) % 2 ^ 64 =
      λ name. ap (counter_of name) (sym (x.recorded)) ∙ counter_of-act_all name (x.acts) in
    omega (arith, count failures_total, count hourly_runs_total, count daily_runs_total, x.counted)
