-- ===== src/Store/Reach/StatCalls.antt =====
-- The roll-ups keep an invariant of the links and the click log; so does the clean-up if its statement
-- does.

use link_nest.Base.{ℕ, refl, map, ◌*◌, ◌-◌, ◌%◌, length, not}
use link_nest.Text.{Text, lit}
use link_nest.Platform.{Platform}
use link_nest.Models.{Result, ok, err}
use link_nest.Store.World.{Tables, World, Db, ◌>>=◌, ◌>>◌, pure, call, modify, gets, in_tx}
use link_nest.Store.Reads.{select}
use link_nest.Store.Upsert.{upsert_all, affected_all}
use link_nest.Store.Rollup.{
  with_stats, finished, is_old, rows_affected, insert_run, start_run, finish_run,
  cleanup_old_clicks,
}
use link_nest.Store.Rollup.Hour.{hourly_table, hourly_rows, upsert_hour, aggregate_hour}
use link_nest.Store.Rollup.Day.{
  daily_table, daily_rows, snapshot_table, snapshot_rows, upsert_day, upsert_snapshots, roll_day,
  aggregate_day,
}
use link_nest.Store.Reach.Steady.{
  Grown, Rule, Steady, Steady-bind, Steady-other, Steady-call, Steady-lift, Steady-modify,
  Steady-in_tx,
}
use link_nest.Store.Reach.Rules.{ClickRule}

module _ {I : World → Type 0} ⦃rule : Rule I⦄ (p : Platform) where
  Steady-rows_affected : (n : ℕ) → Steady I (rows_affected n)
  unfolding rows_affected
  Steady-rows_affected n = record {
    steady = λ w h. kept w (call w) ((Steady-call {I = I}).steady w h);
  }
    where
      answer : Result (Unit {0}) × World → Result ℕ × World
      answer x =
          let (r, w') = x in
          elim r as (λ _. Result ℕ × World) [ ok _ ↦ (ok n, w') | err _ ↦ (ok 0, w') ]

      kept :
          (w : World) (x : Result (Unit {0}) × World)
          → Grown w x.1 × I x.1
          → Grown w (answer x).1 × I (answer x).1
      kept w (ok u, v) h = h
      kept w (err e, v) h = h

  Steady-start_run : (name : Text) → Steady I (start_run name)
  unfolding start_run insert_run
  Steady-start_run name =
      Steady-bind call (λ _. insert_run name >>= λ id. call >> pure id) Steady-call
        (λ _.
          Steady-bind (insert_run name) (λ id. call >> pure id)
            (Steady-other (insert_run name) (λ w. record {
              user = refl;
              users = refl;
              link = refl;
              event = refl;
              links = refl;
              click_events = refl;
            }))
            (λ id. Steady-bind call (λ _. pure id) Steady-call (λ _. Steady-lift (λ _. ok id))))

  Steady-finish_run : (id rows : ℕ) → Steady I (finish_run id rows)
  unfolding finish_run with_stats
  Steady-finish_run id rows =
      let change : World → Tables =
        λ w. with_stats (λ s. record s { runs = map (finished id rows w.now) (s.runs) }) w in
      Steady-bind call (λ _. modify change) Steady-call
        (λ _. Steady-other (modify change) (λ w. record {
          user = refl;
          users = refl;
          link = refl;
          event = refl;
          links = refl;
          click_events = refl;
        }))

  -- A statement on the statistics or the click log that reads the number of its rows.
  Steady-upsert :
      (count : World → ℕ) (change : World → Tables)
      → ((w : World) → I w → I (record w { tables = change w }))
      → Steady I (call >>= λ _. gets count >>= λ n. modify change >>= λ _. rows_affected n)
  Steady-upsert count change keep =
      Steady-bind call (λ _. gets count >>= λ n. modify change >>= λ _. rows_affected n) Steady-call
        (λ _.
          Steady-bind (gets count) (λ n. modify change >>= λ _. rows_affected n)
            (Steady-lift (λ w. ok (count w)))
            (λ n.
              Steady-bind (modify change) (λ _. rows_affected n) (Steady-modify change keep)
                (λ _. Steady-rows_affected n)))

  Steady-roll_up :
      (name : Text) (work : Db ℕ)
      → Steady I work
      → Steady I (
          in_tx (
            start_run name >>= λ id.
            work >>= λ rows. finish_run id rows >>= λ _. call >>= λ _. pure rows))
  Steady-roll_up name work h = Steady-in_tx _ (
      Steady-bind (start_run name)
        (λ id. work >>= λ rows. finish_run id rows >>= λ _. call >>= λ _. pure rows)
        (Steady-start_run name)
        (λ id.
          Steady-bind work (λ rows. finish_run id rows >>= λ _. call >>= λ _. pure rows) h
            (λ rows.
              Steady-bind (finish_run id rows) (λ _. call >>= λ _. pure rows)
                (Steady-finish_run id rows)
                (λ _.
                  Steady-bind call (λ _. pure rows) Steady-call
                    (λ _. Steady-lift (λ _. ok rows))))))

  pub Steady-aggregate_hour : (hour : ℕ) → Steady I (aggregate_hour p hour)
  unfolding aggregate_hour upsert_hour with_stats
  Steady-aggregate_hour hour = Steady-roll_up (lit "hourly_aggregator") (upsert_hour p hour) (
      Steady-upsert (λ w. affected_all hourly_table (hourly_rows p hour w) w.tables.stats.hourly)
        (λ w.
          with_stats
            (λ s. record s { hourly = upsert_all hourly_table (hourly_rows p hour w) (s.hourly) })
            w)
        (λ w h.
          rule.frame
            (record {
              user = refl;
              users = refl;
              link = refl;
              event = refl;
              links = refl;
              click_events = refl;
            })
            h))

  Steady-roll_day : (start : ℕ) → Steady I (roll_day p start)
  unfolding roll_day upsert_day upsert_snapshots with_stats
  Steady-roll_day start =
      let change : World → Tables = λ w.
        with_stats
          (λ s. record s {
            snapshots = upsert_all snapshot_table (snapshot_rows p start w) (s.snapshots);
          })
          w in
      Steady-bind (upsert_day p start) (λ rows. upsert_snapshots p start >>= λ _. pure rows)
        (Steady-upsert (λ w. affected_all daily_table (daily_rows p start w) w.tables.stats.daily)
          (λ w.
            with_stats
              (λ s. record s { daily = upsert_all daily_table (daily_rows p start w) (s.daily) }) w)
          (λ w h.
            rule.frame
              (record {
                user = refl;
                users = refl;
                link = refl;
                event = refl;
                links = refl;
                click_events = refl;
              })
              h))
        (λ rows.
          Steady-bind (upsert_snapshots p start) (λ _. pure rows)
            (Steady-bind call (λ _. modify change) Steady-call
              (λ _. Steady-other (modify change) (λ w. record {
                user = refl;
                users = refl;
                link = refl;
                event = refl;
                links = refl;
                click_events = refl;
              })))
            (λ _. Steady-lift (λ _. ok rows)))

  pub Steady-aggregate_day : (date : ℕ) → Steady I (aggregate_day p date)
  unfolding aggregate_day
  Steady-aggregate_day date =
      let start = date - date % (24 * 3600) in
      Steady-roll_up (lit "daily_aggregator") (roll_day p start) (Steady-roll_day start)

  pub Steady-cleanup_old_clicks : ClickRule I → (days : ℕ) → Steady I (cleanup_old_clicks days)
  unfolding cleanup_old_clicks
  Steady-cleanup_old_clicks clicks days =
      Steady-upsert (λ w. length (select (is_old days w.now) w.tables.click_events))
        (λ w. record (w.tables) {
          click_events = select (λ e. not (is_old days w.now e)) w.tables.click_events;
        })
        (clicks.clean days)
