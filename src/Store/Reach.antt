-- ===== src/Store/Reach.antt =====
-- All calls of store/store.go that change the database, as steps; between them time passes and faults
-- come.
pub mod Steady
pub mod Rules
pub mod Numbered
pub mod LinkCalls
pub mod OtherCalls
pub mod StatCalls
pub mod Sound
pub mod Logged
pub mod Enrolled
pub mod Shown
pub mod Runs
pub mod Keys
pub mod Shelf
mod Tests
use link_nest.Base.{ℕ, ℤ, Bool, Option, List, []}
use link_nest.Text.{Text}
use link_nest.Platform.{Platform}
use link_nest.Models.{ClickEvent, DriverError, Result}
use link_nest.Store.Stats.{no_stats}
use link_nest.Store.World.{World}
use link_nest.Store.Links.{create_link, update_link, delete_link, move_link}
use link_nest.Store.Clicks.{ingest_click}
use link_nest.Store.Users.{create_user, update_profile, create_session, delete_session}
use link_nest.Store.Rollup.{cleanup_old_clicks}
use link_nest.Store.Rollup.Hour.{aggregate_hour}
use link_nest.Store.Rollup.Day.{aggregate_day}

-- A call with its arguments; a user's comes first. In `sign_up` stands the hash or the error of bcrypt.
pub data Op : Type 0 where
  create : ℕ → Text → Text → Bool → Op
  update : ℕ → ℤ → Text → Text → Bool → Op
  delete : ℕ → ℤ → Op
  move : ℕ → ℤ → Bool → Op
  click : ClickEvent → Op
  sign_up : (Text → Result Text) → Text → Text → Text → Text → Text → Op
  edit_profile : ℕ → Text → Text → Text → Op
  open_session : Result Text → ℕ → ℕ → Text → Text → Op
  end_session : Text → Op
  hourly_run daily_run clean_up : ℕ → Op

unfoldable pub run_op : Platform → Op → World → World
run_op p (create u title url public) w = (create_link p u title url public w).1
run_op p (update u id title url public) w = (update_link p u id title url public w).1
run_op p (delete u id) w = (delete_link u id w).1
run_op p (move u id up) w = (move_link u id up w).1
run_op p (click e) w = (ingest_click p e w).1
run_op p (sign_up generate email password username first last) w =
    (create_user p generate email password username first last w).1
run_op p (edit_profile u first last bio) w = (update_profile p u first last bio w).1
run_op p (open_session random now u ip ua) w = (create_session p random now u ip ua w).1
run_op p (end_session id) w = (delete_session p id w).1
run_op p (hourly_run hour) w = (aggregate_hour p hour w).1
run_op p (daily_run date) w = (aggregate_day p date w).1
run_op p (clean_up days) w = (cleanup_old_clicks days w).1

-- The database after its migration.
abbrev pub fresh : ℕ → List (Option DriverError) → World
fresh now faults = record {
  tables = record { users = []; sessions = []; links = []; click_events = []; stats = no_stats };
  serials = record { user = 1; link = 1; event = 1; run = 1 };
  now = now;
  faults = faults;
}

pub data Step (p : Platform) (w : World) : World → Type 0 where
  ran : (o : Op) → Step p w (run_op p o w)
  passed :
      (now : ℕ) (faults : List (Option DriverError))
      → Step p w (record w { now = now; faults = faults })

pub data Reachable (p : Platform) : World → Type 0 where
  begun : (now : ℕ) (faults : List (Option DriverError)) → Reachable p (fresh now faults)
  next : {w v : World} → Reachable p w → Step p w v → Reachable p v
