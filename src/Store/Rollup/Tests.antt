-- ===== src/Store/Rollup/Tests.antt =====
-- The roll-ups on a small click log, and their theorems there.
use link_nest.Base.{ℕ, ◌≡◌, refl, ◌==◌, if◌then◌else◌, [], ◌∷◌}
use link_nest.Text.{Text, lit}
use link_nest.Platform.Sample.{sample}
use link_nest.Models.{ClickEvent, ok}
use link_nest.Store.Stats.{no_stats}
use link_nest.Store.World.{World, call, in_tx}
use link_nest.Store.Upsert.{affected_all}
use link_nest.Store.Upsert.{affected_all}
use link_nest.Store.Rollup.Hour.{aggregate_hour}
use link_nest.Store.Rollup.Day.{aggregate_day}
use link_nest.Store.Rollup.Hourly.{Rolled, aggregate_hour-Rolled}
use link_nest.Store.Rollup.Daily.{DayRolled, aggregate_day-DayRolled}

abbrev visit : ℕ → ℕ → Text → ℕ → ClickEvent
visit u l ip time = record {
  id = time;
  idempotency_key = [];
  user_id = u;
  link_id = l;
  referrer = [];
  user_agent = [];
  ip_address = ip;
  country_code = [];
  device_type = [];
  browser_name = [];
  event_time = time;
}

abbrev log : World
log = record {
  tables = record {
    users = [];
    sessions = [];
    links = [];
    click_events =
        visit 7 1 (lit "a") 3599
        ∷ visit 7 1 (lit "a") 3600
        ∷ visit 7 1 (lit "a") 3700
        ∷ visit 7 2 (lit "b") 3800
        ∷ visit 8 3 (lit "a") 7200
        ∷ [];
    stats = record no_stats {
      hourly =
          record {
            user_id = 7;
            link_id = 1;
            hour = 3600;
            click_count = 1;
            unique_visitors = 1;
            updated_at = 5;
          }
          ∷ [];
    };
  };
  serials = record { user = 9; link = 5; event = 9; run = 1 };
  now = 9000;
  faults = [];
}

abbrev owner : ℕ → ℕ
owner l = if l == 3 then 8 else 7

-- A row that is updated counts twice in the rows processed.
hour_runs : aggregate_hour sample 3600 log ≡ (ok 3, (aggregate_hour sample 3600 log).1)
unfolding aggregate_hour in_tx call affected_all link_nest.Store.Reads.select
hour_runs = refl

aggregate_hour-Rolled_example :
    Rolled sample 3600 log.tables (aggregate_hour sample 3600 log).1.tables
aggregate_hour-Rolled_example =
    aggregate_hour-Rolled sample owner 3600 log (aggregate_hour sample 3600 log).1 3
      (refl, (refl, (refl, (refl, (refl, tt))))) hour_runs

day_runs : aggregate_day sample 5000 log ≡ (ok 2, (aggregate_day sample 5000 log).1)
unfolding aggregate_day in_tx call affected_all link_nest.Store.Reads.select
day_runs = refl

aggregate_day-DayRolled_example :
    DayRolled sample 0 log.tables (aggregate_day sample 5000 log).1.tables
aggregate_day-DayRolled_example =
    aggregate_day-DayRolled sample 5000 log (aggregate_day sample 5000 log).1 2 day_runs
