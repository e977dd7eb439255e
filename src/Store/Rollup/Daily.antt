-- ===== src/Store/Rollup/Daily.antt =====
-- What the daily roll-up leaves in the statistics.
use mathlib.Core.Path.{subst}
use link_nest.Base.{
  ℕ, ◌+◌, ◌-◌, ◌*◌, ◌%◌, ◌≡◌, ◌<◌, refl, sym, ap, ◌∙◌, Option, none, some, List, map, length,
}
use link_nest.Text.{lit}
use link_nest.Platform.{Platform}
use link_nest.Models.{ClickEvent, ok}
use link_nest.Store.Stats.{DailyRow, Snapshot, WorkerRun}
use link_nest.Store.World.{Tables, World, pure, call, modify, ◌>>=◌}
use link_nest.Store.World.Runs.{Passed, bind_inv, Passed-call-tables, in_tx-ok}
use link_nest.Store.Reads.{select}
use link_nest.Store.Upsert.{find_row, upsert_all, affected_all, merged}
use link_nest.Store.Rollup.{events_in, visitors, with_stats}
use link_nest.Store.Rollup.Day.{
  of_user, users_in, daily_table, snapshot_table, daily_row, snapshot_row, daily_rows,
  snapshot_rows, upsert_day, upsert_snapshots, roll_day, aggregate_day,
}
use link_nest.Store.Rollup.Runs.{
  tables_of, but_runs, with_runs, eq_with_runs, rolled_inv, upsert_inv,
}
use link_nest.Store.Rollup.Ranking.{Before, clicks_on, top_link_lem}
use link_nest.Store.Rollup.UserRows.{rows_of_users, after-counted, after-silent}

-- The clicks of a user's visitors on the day that begins at `start`.
abbrev pub clicks_of_day : ℕ → Tables → List ClickEvent
clicks_of_day start t = events_in start (start + 24 * 3600) t.click_events

abbrev pub daily_of : ℕ → ℕ → Tables → Option DailyRow
daily_of u start t = find_row daily_table (u, start) t.stats.daily

abbrev pub snapshot_of : ℕ → ℕ → Tables → Option Snapshot
snapshot_of u start t = find_row snapshot_table (u, start) t.stats.snapshots

-- The statistics of a user who was visited on the day: the totals, and the link on top with its
-- clicks; every other link clicked has fewer clicks, or as many and a greater id.
pub record DayOf (p : Platform) (u start : ℕ) (es : List ClickEvent) (after : Tables) : Type 0 where
  pub top : ℕ
  pub first_of_all :
      (m : ℕ) → 0 < clicks_on es u m → Before (top, clicks_on es u top) (m, clicks_on es u m)
  pub row : DailyRow
  pub found : daily_of u start after ≡ some row
  pub total_clicks : row.total_clicks ≡ length (select (of_user u) es)
  pub unique_visitors : row.unique_visitors ≡ visitors p (select (of_user u) es)
  pub top_link_id : row.top_link_id ≡ some top
  pub top_link_clicks : row.top_link_clicks ≡ clicks_on es u top
  pub snapshot : Snapshot
  pub found_snapshot : snapshot_of u start after ≡ some snapshot
  pub same_total : snapshot.total_clicks ≡ row.total_clicks
  pub same_visitors : snapshot.unique_visitors ≡ row.unique_visitors
  pub same_top : snapshot.top_link_id ≡ row.top_link_id

-- What a roll-up of a day has done.
pub record DayRolled (p : Platform) (start : ℕ) (before after : Tables) : Type 0 where
  pub counted :
      (u : ℕ)
      → 0 < length (select (of_user u) (clicks_of_day start before))
      → DayOf p u start (clicks_of_day start before) after
  pub silent :
      (u : ℕ)
      → length (select (of_user u) (clicks_of_day start before)) ≡ 0
      → (daily_of u start after ≡ daily_of u start before)
        × (snapshot_of u start after ≡ snapshot_of u start before)
  pub others : after ≡ record before {
    stats = record (before.stats) {
      daily = after.stats.daily;
      snapshots = after.stats.snapshots;
      runs = after.stats.runs;
    };
  }

day_change : Platform → ℕ → World → Tables
unfolding daily_rows with_stats
day_change p start w =
    with_stats (λ s. record s { daily = upsert_all daily_table (daily_rows p start w) (s.daily) }) w

-- The second statement, on the tables.
snapshot_change : Platform → ℕ → Tables → Tables
snapshot_change p start t =
    let es = clicks_of_day start t in
    record t {
      stats = record (t.stats) {
        snapshots =
            upsert_all snapshot_table (map (snapshot_row p start es) (users_in es))
              t.stats.snapshots;
      };
    }

merged-daily :
    (old : Option DailyRow) (r : DailyRow)
    → let s = merged daily_table old r in
      (s.total_clicks ≡ r.total_clicks)
      × (s.unique_visitors ≡ r.unique_visitors)
      × (s.top_link_id ≡ r.top_link_id)
      × (s.top_link_clicks ≡ r.top_link_clicks)
merged-daily none r = (refl, refl, refl, refl)
merged-daily (some s) r = (refl, refl, refl, refl)

merged-snapshot :
    (old : Option Snapshot) (r : Snapshot)
    → let s = merged snapshot_table old r in
      (s.total_clicks ≡ r.total_clicks)
      × (s.unique_visitors ≡ r.unique_visitors)
      × (s.top_link_id ≡ r.top_link_id)
merged-snapshot none r = (refl, refl, refl)
merged-snapshot (some s) r = (refl, refl, refl)

module _ (p : Platform) (start : ℕ) (w : World) where
  abbrev es_of : List ClickEvent
  es_of = clicks_of_day start w.tables

  change : Tables
  unfolding day_change snapshot_change
  change = snapshot_change p start (day_change p start w)

  change-DayOf : (u : ℕ) → 0 < length (select (of_user u) es_of) → DayOf p u start es_of change
  unfolding change rows_of_users daily_row snapshot_row
  change-DayOf u h =
      let (l, top, first) = top_link_lem es_of u h in
      let old = find_row daily_table (u, start) w.tables.stats.daily in
      let shot = find_row snapshot_table (u, start) w.tables.stats.snapshots in
      let r = daily_row p start w.now es_of u in
      let x = snapshot_row p start es_of u in
      let (a, b, c, d) = merged-daily old r in
      let (e, f, g) = merged-snapshot shot x in
      record {
        top = l;
        first_of_all = first;
        row = merged daily_table old r;
        found =
            after-counted daily_table (daily_row p start w.now es_of) start (λ v. refl) es_of u
              w.tables.stats.daily h;
        total_clicks = a;
        unique_visitors = b;
        top_link_id = c ∙ rw top refl;
        top_link_clicks = d ∙ rw top refl;
        snapshot = merged snapshot_table shot x;
        found_snapshot =
            after-counted snapshot_table (snapshot_row p start es_of) start (λ v. refl) es_of u
              w.tables.stats.snapshots h;
        same_total = e ∙ sym a;
        same_visitors = f ∙ sym b;
        same_top = g ∙ sym c;
      }

  change-DayRolled : DayRolled p start w.tables change
  unfolding change rows_of_users daily_row snapshot_row
  change-DayRolled = record {
    counted = change-DayOf;
    silent = λ u h. (
      after-silent daily_table (daily_row p start w.now es_of) start (λ v. refl) es_of u
          w.tables.stats.daily h,
      after-silent snapshot_table (snapshot_row p start es_of) start (λ v. refl) es_of u
          w.tables.stats.snapshots h,
    );
    others = refl;
  }

DayRolled-with_runs :
    (p : Platform) (start : ℕ) (before after after' : Tables) (runs : List WorkerRun)
    → DayRolled p start (with_runs runs before) after
    → but_runs after' ≡ but_runs after
    → DayRolled p start before after'
DayRolled-with_runs p start before after after' runs r e =
    rw (eq_with_runs after' after e) (record {
      counted = λ u h. again u (r.counted u h);
      silent = r.silent;
      others =
          ap (λ (t : Tables). record t { stats = record (t.stats) { runs = after'.stats.runs } })
            (r.others);
    })
  where
    again :
        (u : ℕ)
        → DayOf p u start (clicks_of_day start before) after
        → DayOf p u start (clicks_of_day start before) (with_runs after'.stats.runs after)
    again u d = record {
      top = d.top;
      first_of_all = d.first_of_all;
      row = d.row;
      found = d.found;
      total_clicks = d.total_clicks;
      unique_visitors = d.unique_visitors;
      top_link_id = d.top_link_id;
      top_link_clicks = d.top_link_clicks;
      snapshot = d.snapshot;
      found_snapshot = d.found_snapshot;
      same_total = d.same_total;
      same_visitors = d.same_visitors;
      same_top = d.same_top;
    }

upsert_snapshots-tables :
    (p : Platform) (start : ℕ) (w : World)
    → (s : Passed (upsert_snapshots p start) w) → s.after.tables ≡ snapshot_change p start w.tables
unfolding upsert_snapshots snapshot_change snapshot_rows with_stats
upsert_snapshots-tables p start w s =
    let (began, e) =
      bind_inv call
        (λ _. modify (λ w.
          with_stats
            (λ s. record s {
              snapshots = upsert_all snapshot_table (snapshot_rows p start w) (s.snapshots);
            })
            w))
        w (s.run) in
    ap tables_of (sym e) ∙ ap (snapshot_change p start) (Passed-call-tables began)

-- Both statements of the day, at a world with the tables from before.
roll_day_inv :
    (p : Platform) (start : ℕ) (w : World)
    → (s : Passed (roll_day p start) w)
    → (x : World) × (x.tables ≡ w.tables) × (s.after.tables ≡ change p start x)
unfolding roll_day upsert_day day_change change
roll_day_inv p start w s =
    let (first, e₁) =
      bind_inv (upsert_day p start) (λ rows. upsert_snapshots p start >>= λ _. pure rows) w
        (s.run) in
    let (second, e₂) =
      bind_inv (upsert_snapshots p start) (λ _. pure (first.value)) (first.after) e₁ in
    let (x, e, changed) =
      upsert_inv (λ w. affected_all daily_table (daily_rows p start w) w.tables.stats.daily)
        (day_change p start) (upsert_day p start) w refl first in
    (
      x,
      e,
      ap tables_of (sym e₂)
          ∙ upsert_snapshots-tables p start (first.after) second
          ∙ ap (snapshot_change p start) changed,
    )

pub aggregate_day-DayRolled :
    (p : Platform) (date : ℕ) (w v : World) (n : ℕ)
    → aggregate_day p date w ≡ (ok n, v)
    → DayRolled p (date - date % (24 * 3600)) w.tables v.tables
unfolding aggregate_day
aggregate_day-DayRolled p date w v n done =
    let start = date - date % (24 * 3600) in
    let b = in_tx-ok _ w n v done in
    let (y, s, same, ended) =
      rolled_inv (lit "daily_aggregator") (roll_day p start) _ (b.start) v n refl (b.run) in
    let (x, e, changed) = roll_day_inv p start y s in
    let before : x.tables ≡ with_runs x.tables.stats.runs w.tables =
      eq_with_runs x.tables w.tables (ap but_runs e ∙ same ∙ ap but_runs (b.tables)) in
    DayRolled-with_runs p start w.tables (change p start x) v.tables x.tables.stats.runs
      (subst (λ t. DayRolled p start t (change p start x)) before (change-DayRolled p start x))
      (ended ∙ ap but_runs changed)
