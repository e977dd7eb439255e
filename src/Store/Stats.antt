-- ===== src/Store/Stats.antt =====
-- The tables that the workers of store/store.go fill, as db/migrations/001_init_mysql.sql declares
-- them. Dates and hours are times in seconds; the id of a snapshot, which nothing reads, is left out.
use link_nest.Base.{ℕ, Option, List, []}
use link_nest.Text.{Text}

-- Its primary key is (link_id, hour).
pub record HourlyStat : Type 0 where
  pub user_id : ℕ
  pub link_id : ℕ
  pub hour : ℕ
  pub click_count : ℕ
  pub unique_visitors : ℕ
  pub updated_at : ℕ

-- Its primary key is (user_id, date).
pub record DailyRow : Type 0 where
  pub user_id : ℕ
  pub date : ℕ
  pub total_clicks : ℕ
  pub unique_visitors : ℕ
  pub top_link_id : Option ℕ
  pub top_link_clicks : ℕ
  pub updated_at : ℕ

-- Its unique key is (user_id, snapshot_date).
pub record Snapshot : Type 0 where
  pub user_id : ℕ
  pub snapshot_date : ℕ
  pub total_clicks : ℕ
  pub unique_visitors : ℕ
  pub top_link_id : Option ℕ
  pub source_event_max_id : ℕ

pub record WorkerRun : Type 0 where
  pub id : ℕ
  pub worker_name : Text
  pub status : Text
  pub finished_at : Option ℕ
  pub rows_processed : ℕ

pub record Stats : Type 0 where
  pub hourly : List HourlyStat
  pub daily : List DailyRow
  pub snapshots : List Snapshot
  pub runs : List WorkerRun

abbrev pub no_stats : Stats
no_stats = record { hourly = []; daily = []; snapshots = []; runs = [] }
