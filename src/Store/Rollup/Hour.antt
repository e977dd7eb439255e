-- ===== src/Store/Rollup/Hour.antt =====
-- The hourly roll-up (`aggregateHour` in store/store.go).
use link_nest.Base.{ℕ, ◌+◌, ◌-◌, ◌%◌, refl, ◌&&◌, List, map, ◌==◌, length}
use link_nest.Text.{lit}
use link_nest.Platform.{Platform}
use link_nest.Models.{ClickEvent}
use link_nest.Store.Stats.{HourlyStat}
use link_nest.Store.World.{World, Db, pure, ◌>>=◌, ◌>>◌, call, gets, modify, in_tx}
use link_nest.Store.Reads.{select}
use link_nest.Store.Upsert.{RowKey, Upsert, upsert_all, affected_all}
use link_nest.Store.Rollup.{
  events_in, link_groups, in_group, visitors, with_stats, rows_affected, start_run, finish_run,
}

-- The rows of `hourly_link_stats`, by link and hour.
abbrev pub hourly_table : Upsert HourlyStat
hourly_table = record {
  key = λ r. (r.link_id, r.hour);
  merge = λ old new. record old {
    click_count = new.click_count;
    unique_visitors = new.unique_visitors;
    updated_at = new.updated_at;
  };
  same_row = λ r s.
      r.click_count == s.click_count
      && r.unique_visitors == s.unique_visitors
      && r.updated_at == s.updated_at;
  key-merge = λ old new. refl;
}

unfoldable pub hourly_row : Platform → ℕ → ℕ → List ClickEvent → RowKey → HourlyStat
unfolding visitors
hourly_row p hour now es k =
    let group = select (in_group k) es in
    record {
      user_id = k.0;
      link_id = k.1;
      hour = hour;
      click_count = length group;
      unique_visitors = visitors p group;
      updated_at = now;
    }

-- The rows that the SELECT of `aggregateHour` yields.
unfoldable pub hourly_rows : Platform → ℕ → World → List HourlyStat
unfolding hourly_row
hourly_rows p hour w =
    let es = events_in hour (hour + 3600) w.tables.click_events in
    map (hourly_row p hour w.now es) (link_groups es)

unfoldable pub upsert_hour : Platform → ℕ → Db ℕ
unfolding hourly_rows with_stats rows_affected
upsert_hour p hour = do
  call
  affected ← gets (λ w. affected_all hourly_table (hourly_rows p hour w) w.tables.stats.hourly)
  modify (λ w.
      with_stats
        (λ s. record s { hourly = upsert_all hourly_table (hourly_rows p hour w) (s.hourly) }) w)
  rows_affected affected

unfoldable pub aggregate_hour : Platform → ℕ → Db ℕ
unfolding start_run upsert_hour finish_run
aggregate_hour p hour = in_tx (do
  id ← start_run (lit "hourly_aggregator")
  rows ← upsert_hour p hour
  finish_run id rows
  call
  pure rows)

-- `now` is the time of the program.
unfoldable pub aggregate_previous_hour : Platform → ℕ → Db ℕ
aggregate_previous_hour p now = let before = now - 3600 in aggregate_hour p (before - before % 3600)
