-- ===== src/Store/Board.antt =====
-- What store/store.go reads for the dashboard and for the API's status.
pub mod Shown
mod Tests
use link_nest.Base.{
  ℕ, pos, Bool, false, Option, none, some, List, [], ◌∷◌, ◌++◌, map, leb, ◌==◌, length, take,
}
use link_nest.Text.{Text, lit}
use link_nest.Text.Decimal.{decimal}
use link_nest.Platform.{Platform}
use link_nest.Models.{User, Link, ClickEvent, DailyStat, Dashboard, ok}
use link_nest.Store.Stats.{DailyRow}
use link_nest.Store.World.{World, Db, pure, ◌>>=◌, ◌>>◌, call, gets, query}
use link_nest.Store.Reads.{select, sort_by, links_for_user, top_links}
use link_nest.Store.Rollup.{visitors}
use link_nest.Store.Rollup.Day.{of_user}

-- `COALESCE(top_link_id, 0)`.
abbrev or_zero : Option ℕ → ℕ
or_zero none = 0
or_zero (some n) = n

unfoldable pub daily_stat : DailyRow → DailyStat
daily_stat r = record {
  date = r.date;
  total_clicks = r.total_clicks;
  unique_visitors = r.unique_visitors;
  top_link_id = or_zero r.top_link_id;
  top_link_clicks = r.top_link_clicks;
}

-- `ORDER BY date DESC`.
abbrev pub le_newest : DailyRow → DailyRow → Bool
le_newest a b = leb b.date a.date

-- The rows that `daily` selects.
unfoldable pub newest : ℕ → List DailyRow → List DailyRow
unfolding select sort_by
newest u rows = take 14 (sort_by le_newest (select (λ (r : DailyRow). r.user_id == u) rows))

unfoldable pub daily : ℕ → Db (List DailyStat)
unfolding newest daily_stat
daily u = query (λ w. map daily_stat (newest u w.tables.stats.daily))

-- `COUNT(*), COUNT(DISTINCT ip_address)` of the user's events.
unfoldable pub totals : Platform → ℕ → Db (ℕ × ℕ)
unfolding select visitors
totals p u = do
  call
  gets (λ w. let mine = select (of_user u) w.tables.click_events in (length mine, visitors p mine))

unfoldable pub dashboard : Platform → User → Db Dashboard
unfolding links_for_user totals top_links daily
dashboard p user = do
  links ← links_for_user user.id false (pos 100) (pos 0)
  counts ← totals p user.id
  top ← top_links user.id
  days ← daily user.id
  pure (record {
    user = user;
    links = links;
    total_clicks = counts.0;
    unique_visitors = counts.1;
    top_links = top;
    daily = days;
  })

-- `indexes` is the number that the database's information schema yields.
unfoldable pub explain_indexes : ℕ → Db Text
explain_indexes indexes = do
  call
  pure (
      lit "MySQL/TiDB schema has "
      ++ (decimal indexes
          ++ lit " indexes for auth, profile lookup, click ingestion, and analytics queries."))
