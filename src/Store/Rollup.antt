-- ===== src/Store/Rollup.antt =====
-- The roll-ups of the workers in store/store.go: hourly and daily statistics of the click log, and its
-- clean-up. SQL leaves the order of groups open; here a group stands where its last event does.
pub mod Groups
pub mod Runs
pub mod Hour
pub mod Day
pub mod HourGroups
pub mod Hourly
pub mod UserRows
pub mod Daily
pub mod Ranking
mod Tests
use link_nest.Base.{
  ℕ, suc, ◌+◌, ◌-◌, ◌*◌, ◌%◌, ◌≡◌, refl, Bool, true, false, not, ◌&&◌, ◌||◌, Option, none, some,
  List, [], ◌∷◌, ◌++◌, map, ltb, leb, ◌==◌, if◌then◌else◌, length,
}
use Prim.Native.Nat.{max}
use link_nest.Text.{Text, lit}
use link_nest.Platform.{Platform}
use link_nest.Models.{ClickEvent, Result, ok, err}
use link_nest.Store.Stats.{HourlyStat, DailyRow, Snapshot, WorkerRun, Stats}
use link_nest.Store.World.{Tables, World, Db, pure, ◌>>=◌, ◌>>◌, call, gets, modify, in_tx}
use link_nest.Store.Reads.{select}
use link_nest.Store.Upsert.{RowKey, same_key, Upsert, upsert_all, affected_all}

-- Each value once.
module _ {K : Type 0} (eq : K → K → Bool) where
  unfoldable pub has : K → List K → Bool
  has x [] = false
  has x (y ∷ ys) = eq y x || has x ys

  unfoldable pub distinct_by : List K → List K
  unfolding has
  distinct_by [] = []
  distinct_by (x ∷ xs) = let rest = distinct_by xs in if has x rest then rest else x ∷ rest

-- `event_time >= ? AND event_time < ?`.
abbrev pub in_window : ℕ → ℕ → ClickEvent → Bool
in_window start end e = leb start e.event_time && ltb e.event_time end

abbrev pub events_in : ℕ → ℕ → List ClickEvent → List ClickEvent
events_in start end = select (in_window start end)

-- `GROUP BY user_id, link_id`.
abbrev pub pair_of : ClickEvent → RowKey
pair_of e = (e.user_id, e.link_id)

abbrev pub link_groups : List ClickEvent → List RowKey
link_groups es = distinct_by same_key (map pair_of es)

abbrev pub in_group : RowKey → ClickEvent → Bool
in_group k e = same_key (pair_of e) k

-- `COUNT(DISTINCT ip_address)`.
unfoldable pub visitors : Platform → List ClickEvent → ℕ
unfolding distinct_by
visitors p es = length (distinct_by p.same (map (λ (e : ClickEvent). e.ip_address) es))

unfoldable pub with_stats : (Stats → Stats) → World → Tables
with_stats f w = record (w.tables) { stats = f w.tables.stats }

-- `result.RowsAffected()` with its error dropped.
unfoldable pub rows_affected : ℕ → Db ℕ
rows_affected n w = let (r, w') = call w in elim r [ ok _ ↦ (ok n, w') | err _ ↦ (ok 0, w') ]

unfoldable pub insert_run : Text → Db ℕ
unfolding with_stats
insert_run name w =
    let id = w.serials.run in
    let run : WorkerRun = record {
      id = id;
      worker_name = name;
      status = lit "running";
      finished_at = none;
      rows_processed = 0;
    } in
    (
      ok id,
      record w {
        tables = with_stats (λ s. record s { runs = s.runs ++ run ∷ [] }) w;
        serials = record (w.serials) { run = suc id };
      },
    )

unfoldable pub start_run : Text → Db ℕ
unfolding insert_run
start_run name = do call; id ← insert_run name; call; pure id

-- The row of a run when it has succeeded.
unfoldable pub finished : ℕ → ℕ → ℕ → WorkerRun → WorkerRun
finished id rows now r =
    if r.id == id
    then record r { status = lit "succeeded"; finished_at = some now; rows_processed = rows }
    else r

unfoldable pub finish_run : ℕ → ℕ → Db (Unit {0})
unfolding with_stats finished
finish_run id rows = do
  call
  modify (λ w. with_stats (λ s. record s { runs = map (finished id rows w.now) (s.runs) }) w)

-- `event_time < DATE_SUB(now(), INTERVAL ? DAY)`.
abbrev pub is_old : ℕ → ℕ → ClickEvent → Bool
is_old days now e = ltb (e.event_time + days * (24 * 3600)) now

unfoldable pub cleanup_old_clicks : ℕ → Db ℕ
unfolding rows_affected
cleanup_old_clicks days = do
  call
  deleted ← gets (λ w. length (select (is_old days w.now) w.tables.click_events))
  modify (λ w. record (w.tables) {
    click_events = select (λ e. not (is_old days w.now e)) w.tables.click_events;
  })
  rows_affected deleted
