-- ===== src/Store/Rollup/Hourly.antt =====
-- What the hourly roll-up leaves in the statistics.
use mathlib.Core.Path.{subst}
use link_nest.Base.{ℕ, ◌+◌, ◌≡◌, ◌≢◌, ◌<◌, refl, sym, ap, ◌∙◌, Option, none, some, List, length}
use link_nest.Text.{lit}
use link_nest.Platform.{Platform}
use link_nest.Models.{ClickEvent, ok}
use link_nest.Store.Stats.{HourlyStat, WorkerRun}
use link_nest.Store.World.{Tables, World}
use link_nest.Store.World.Runs.{in_tx-ok}
use link_nest.Store.Reads.{select}
use link_nest.Store.Upsert.{RowKey, find_row, upsert_all, find_row-upsert_all, affected_all, merged}
use link_nest.Store.Rollup.{link_groups, events_in, visitors, with_stats}
use link_nest.Store.Rollup.Hour.{hourly_table, hourly_rows, upsert_hour, aggregate_hour}
use link_nest.Store.Rollup.Runs.{but_runs, with_runs, eq_with_runs, rolled_inv, upsert_inv}
use link_nest.Store.Rollup.Groups.{All-select}
use link_nest.Store.Rollup.HourGroups.{
  OneOwner, of_link, row_of, rows_of, find_row-silent, find_row-counted, find_row_other,
  rows-DistinctKeys, group_of_link,
}

abbrev pub stat_of : ℕ → ℕ → Tables → Option HourlyStat
stat_of l hour t = find_row hourly_table (l, hour) t.stats.hourly

-- The clicks on a link in the hour.
abbrev pub clicks_in : ℕ → ℕ → Tables → List ClickEvent
clicks_in hour l t = select (of_link l) (events_in hour (hour + 3600) t.click_events)

-- What a roll-up of `hour` has done. A link that was clicked in the hour has its number of clicks and
-- of visitors; the statistics of other links and of other hours, and all else but the log of the
-- workers' runs, are as before.
pub record Rolled (p : Platform) (hour : ℕ) (before after : Tables) : Type 0 where
  pub counted :
      (l : ℕ)
      → 0 < length (clicks_in hour l before)
      → (s : HourlyStat) × (stat_of l hour after ≡ some s)
        × (s.click_count ≡ length (clicks_in hour l before))
        × (s.unique_visitors ≡ visitors p (clicks_in hour l before))
  pub silent :
      (l : ℕ) → length (clicks_in hour l before) ≡ 0 → stat_of l hour after ≡ stat_of l hour before
  pub other_hours : (l h : ℕ) → h ≢ hour → stat_of l h after ≡ stat_of l h before
  pub others : after ≡ record before {
    stats = record (before.stats) { hourly = after.stats.hourly; runs = after.stats.runs };
  }

merged-click_count :
    (old : Option HourlyStat) (r : HourlyStat)
    → (merged hourly_table old r).click_count ≡ r.click_count
merged-click_count none r = refl
merged-click_count (some s) r = refl

merged-unique_visitors :
    (old : Option HourlyStat) (r : HourlyStat)
    → (merged hourly_table old r).unique_visitors ≡ r.unique_visitors
merged-unique_visitors none r = refl
merged-unique_visitors (some s) r = refl

module _ (p : Platform) (owner : ℕ → ℕ) (hour : ℕ) (w : World)
    (owned : OneOwner owner w.tables.click_events) where
  abbrev es_of : List ClickEvent
  es_of = events_in hour (hour + 3600) w.tables.click_events

  in_hour-OneOwner : OneOwner owner es_of
  in_hour-OneOwner = All-select _ _ w.tables.click_events owned

  after_hour : List HourlyStat
  after_hour = upsert_all hourly_table (hourly_rows p hour w) w.tables.stats.hourly

  find_row-after_hour :
      (x : RowKey)
      → find_row hourly_table x after_hour ≡ elim (find_row hourly_table x (hourly_rows p hour w)) [
        | none ↦ find_row hourly_table x w.tables.stats.hourly
        | some r ↦ some (merged hourly_table (find_row hourly_table x w.tables.stats.hourly) r)
      ]
  unfolding after_hour hourly_rows rows_of row_of
  find_row-after_hour x =
      find_row-upsert_all hourly_table x (hourly_rows p hour w) w.tables.stats.hourly
        (rows-DistinctKeys p owner hour w.now es_of in_hour-OneOwner)

  after_hour-counted :
      (l : ℕ)
      → 0 < length (select (of_link l) es_of)
      → (s : HourlyStat) × (find_row hourly_table (l, hour) after_hour ≡ some s)
        × (s.click_count ≡ length (select (of_link l) es_of))
        × (s.unique_visitors ≡ visitors p (select (of_link l) es_of))
  unfolding hourly_rows rows_of row_of
  after_hour-counted l h =
      let row = row_of p owner hour w.now es_of in_hour-OneOwner (owner l, l) in
      let found = find_row-counted p owner hour w.now es_of in_hour-OneOwner l h in
      let group = group_of_link p owner hour w.now es_of in_hour-OneOwner l in
      let old = find_row hourly_table (l, hour) w.tables.stats.hourly in
      (
        merged hourly_table old row,
        find_row-after_hour (l, hour) ∙ rw found refl,
        merged-click_count old row ∙ ap length group,
        merged-unique_visitors old row ∙ ap (visitors p) group,
      )

  after_hour-silent :
      (l : ℕ)
      → length (select (of_link l) es_of) ≡ 0
      → find_row hourly_table (l, hour) after_hour
        ≡ find_row hourly_table (l, hour) w.tables.stats.hourly
  unfolding hourly_rows rows_of row_of
  after_hour-silent l h =
      let missed = find_row-silent p owner hour w.now es_of in_hour-OneOwner l h in
      find_row-after_hour (l, hour) ∙ rw missed refl

  after_hour-other :
      (l h : ℕ)
      → h ≢ hour
      → find_row hourly_table (l, h) after_hour ≡ find_row hourly_table (l, h) w.tables.stats.hourly
  unfolding hourly_rows rows_of row_of
  after_hour-other l h ne =
      let missed =
        find_row_other p owner hour w.now es_of in_hour-OneOwner l h (link_groups es_of) ne in
      find_row-after_hour (l, h) ∙ rw missed refl

hour_change : Platform → ℕ → World → Tables
unfolding hourly_rows
hour_change p hour w =
    with_stats
      (λ s. record s { hourly = upsert_all hourly_table (hourly_rows p hour w) (s.hourly) }) w

hour_change-Rolled :
    (p : Platform) (owner : ℕ → ℕ) (hour : ℕ) (w : World)
    → OneOwner owner w.tables.click_events
    → Rolled p hour w.tables (hour_change p hour w)
unfolding hour_change with_stats
hour_change-Rolled p owner hour w owned = record {
  counted = unfold after_hour in after_hour-counted p owner hour w owned;
  silent = unfold after_hour in after_hour-silent p owner hour w owned;
  other_hours = unfold after_hour in after_hour-other p owner hour w owned;
  others = refl;
}

-- The log of runs does not matter.
Rolled-with_runs :
    (p : Platform) (hour : ℕ) (before after after' : Tables) (runs : List WorkerRun)
    → Rolled p hour (with_runs runs before) after
    → but_runs after' ≡ but_runs after
    → Rolled p hour before after'
Rolled-with_runs p hour before after after' runs r e = rw (eq_with_runs after' after e) (record {
  counted = r.counted;
  silent = r.silent;
  other_hours = r.other_hours;
  others =
      ap (λ (t : Tables). record t { stats = record (t.stats) { runs = after'.stats.runs } })
        (r.others);
})

-- If each link's events were recorded for one owner: after the hourly roll-up succeeds, each link
-- that was clicked in the hour has its number of clicks and of visitors in the statistics of that
-- hour, however often the hour was rolled up before; the statistics of all other links and hours,
-- and all other tables but the log of runs, are as before.
pub aggregate_hour-Rolled :
    (p : Platform) (owner : ℕ → ℕ) (hour : ℕ) (w v : World) (n : ℕ)
    → OneOwner owner w.tables.click_events
    → aggregate_hour p hour w ≡ (ok n, v)
    → Rolled p hour w.tables v.tables
unfolding aggregate_hour upsert_hour hour_change
aggregate_hour-Rolled p owner hour w v n owned done =
    let b = in_tx-ok _ w n v done in
    let (y, s, same, ended) =
      rolled_inv (lit "hourly_aggregator") (upsert_hour p hour) _ (b.start) v n refl (b.run) in
    let (x, e, changed) =
      upsert_inv (λ w. affected_all hourly_table (hourly_rows p hour w) w.tables.stats.hourly)
        (hour_change p hour) (upsert_hour p hour) y refl s in
    let before : x.tables ≡ with_runs x.tables.stats.runs w.tables =
      eq_with_runs x.tables w.tables (ap but_runs e ∙ same ∙ ap but_runs (b.tables)) in
    let owned_x : OneOwner owner x.tables.click_events =
      subst (λ (t : Tables). OneOwner owner t.click_events) (sym before) owned in
    Rolled-with_runs p hour w.tables (hour_change p hour x) v.tables x.tables.stats.runs
      (subst (λ t. Rolled p hour t (hour_change p hour x)) before
        (hour_change-Rolled p owner hour x owned_x))
      (ended ∙ ap but_runs changed)
