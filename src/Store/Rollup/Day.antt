-- ===== src/Store/Rollup/Day.antt =====
-- The daily roll-up (`AggregateDay` in store/store.go).
use link_nest.Base.{
  ℕ, ◌+◌, ◌-◌, ◌*◌, ◌%◌, refl, Bool, true, false, ◌&&◌, ◌||◌, Option, none, some, List, [], ◌∷◌,
  map, ltb, leb, ◌==◌, if◌then◌else◌, length,
}
use Prim.Native.Nat.{max}
use link_nest.Text.{lit}
use link_nest.Platform.{Platform}
use link_nest.Models.{ClickEvent}
use link_nest.Store.Stats.{DailyRow, Snapshot}
use link_nest.Store.World.{World, Db, pure, ◌>>=◌, ◌>>◌, call, gets, modify, in_tx}
use link_nest.Store.Reads.{select}
use link_nest.Store.Upsert.{RowKey, Upsert, upsert_all, affected_all}
use link_nest.Store.Rollup.{
  distinct_by, events_in, link_groups, in_group, visitors, with_stats, rows_affected, start_run,
  finish_run,
}

-- Of the links in a user's groups the one with the most clicks, the first by id among equals, with
-- the number of its clicks: `ranked_links` with `rn = 1`.
abbrev pub better : ℕ × ℕ → ℕ × ℕ → ℕ × ℕ
better (l, c) (m, d) = if ltb d c || (c == d && leb l m) then (l, c) else (m, d)

unfoldable pub best : List (ℕ × ℕ) → Option (ℕ × ℕ)
best [] = none
best (x ∷ xs) = elim (best xs) [ none ↦ some x | some y ↦ some (better x y) ]

abbrev pub of_user : ℕ → ClickEvent → Bool
of_user u e = e.user_id == u

-- The links of a user with their clicks.
abbrev pub ranked : List ClickEvent → ℕ → List (ℕ × ℕ)
ranked es u =
    map (λ (k : RowKey). (k.1, length (select (in_group k) es)))
      (select (λ (k : RowKey). k.0 == u) (link_groups es))

unfoldable pub top_link : List ClickEvent → ℕ → Option (ℕ × ℕ)
unfolding best
top_link es u = best (ranked es u)

abbrev pub id_of_top : Option (ℕ × ℕ) → Option ℕ
id_of_top none = none
id_of_top (some (l, _)) = some l

abbrev clicks_of_top : Option (ℕ × ℕ) → ℕ
clicks_of_top none = 0
clicks_of_top (some (_, c)) = c

unfoldable pub max_id : List ClickEvent → ℕ
max_id [] = 0
max_id (e ∷ es) = max e.id (max_id es)

abbrev same_option : Option ℕ → Option ℕ → Bool
same_option none none = true
same_option (some a) (some b) = a == b
same_option _ _ = false

abbrev pub daily_table : Upsert DailyRow
daily_table = record {
  key = λ r. (r.user_id, r.date);
  merge = λ old new. record old {
    total_clicks = new.total_clicks;
    unique_visitors = new.unique_visitors;
    top_link_id = new.top_link_id;
    top_link_clicks = new.top_link_clicks;
    updated_at = new.updated_at;
  };
  same_row = λ r s.
      r.total_clicks == s.total_clicks
      && r.unique_visitors == s.unique_visitors
      && same_option r.top_link_id s.top_link_id
      && r.top_link_clicks == s.top_link_clicks
      && r.updated_at == s.updated_at;
  key-merge = λ old new. refl;
}

abbrev pub snapshot_table : Upsert Snapshot
snapshot_table = record {
  key = λ r. (r.user_id, r.snapshot_date);
  merge = λ old new. record old {
    total_clicks = new.total_clicks;
    unique_visitors = new.unique_visitors;
    top_link_id = new.top_link_id;
    source_event_max_id = new.source_event_max_id;
  };
  same_row = λ r s.
      r.total_clicks == s.total_clicks
      && r.unique_visitors == s.unique_visitors
      && same_option r.top_link_id s.top_link_id
      && r.source_event_max_id == s.source_event_max_id;
  key-merge = λ old new. refl;
}

-- `GROUP BY user_id`.
abbrev pub users_in : List ClickEvent → List ℕ
users_in es = distinct_by (λ a b. a == b) (map (λ (e : ClickEvent). e.user_id) es)

unfoldable pub daily_row : Platform → ℕ → ℕ → List ClickEvent → ℕ → DailyRow
unfolding visitors top_link
daily_row p date now es u =
    let mine = select (of_user u) es in
    record {
      user_id = u;
      date = date;
      total_clicks = length mine;
      unique_visitors = visitors p mine;
      top_link_id = id_of_top (top_link es u);
      top_link_clicks = clicks_of_top (top_link es u);
      updated_at = now;
    }

unfoldable pub snapshot_row : Platform → ℕ → List ClickEvent → ℕ → Snapshot
unfolding visitors top_link max_id
snapshot_row p date es u =
    let mine = select (of_user u) es in
    record {
      user_id = u;
      snapshot_date = date;
      total_clicks = length mine;
      unique_visitors = visitors p mine;
      top_link_id = id_of_top (top_link es u);
      source_event_max_id = max_id mine;
    }

abbrev pub day_of : ℕ → World → List ClickEvent
day_of start w = events_in start (start + 24 * 3600) w.tables.click_events

unfoldable pub daily_rows : Platform → ℕ → World → List DailyRow
unfolding daily_row
daily_rows p start w = let es = day_of start w in map (daily_row p start w.now es) (users_in es)

unfoldable pub snapshot_rows : Platform → ℕ → World → List Snapshot
unfolding snapshot_row
snapshot_rows p start w = let es = day_of start w in map (snapshot_row p start es) (users_in es)

unfoldable pub upsert_day : Platform → ℕ → Db ℕ
unfolding daily_rows with_stats rows_affected
upsert_day p start = do
  call
  affected ← gets (λ w. affected_all daily_table (daily_rows p start w) w.tables.stats.daily)
  modify (λ w.
      with_stats (λ s. record s { daily = upsert_all daily_table (daily_rows p start w) (s.daily) })
        w)
  rows_affected affected

unfoldable pub upsert_snapshots : Platform → ℕ → Db (Unit {0})
unfolding snapshot_rows with_stats
upsert_snapshots p start = do
  call
  modify (λ w.
      with_stats
        (λ s. record s {
          snapshots = upsert_all snapshot_table (snapshot_rows p start w) (s.snapshots);
        })
        w)

-- The two statements of the day.
unfoldable pub roll_day : Platform → ℕ → Db ℕ
unfolding upsert_day upsert_snapshots
roll_day p start = do rows ← upsert_day p start; upsert_snapshots p start; pure rows

-- `AggregateDay` of the day that the time `date` lies in, in UTC.
unfoldable pub aggregate_day : Platform → ℕ → Db ℕ
unfolding start_run roll_day finish_run
aggregate_day p date =
    let start = date - date % (24 * 3600) in
    in_tx (do
      id ← start_run (lit "daily_aggregator")
      rows ← roll_day p start
      finish_run id rows
      call
      pure rows)
