-- ===== src/Store/Tests.antt =====
-- Runs of the store on a small database, and its theorems there.
use link_nest.Store.Stats.{no_stats}
use link_nest.Base.{◌≢◌, ◌++◌, ◌↔◌, ℕ, pos, ◌≡◌, refl, true, none, some, [], ◌∷◌, arith}
use link_nest.Text.{lit, equals_refl, contains}
use link_nest.Platform.Sample.{sample}
use link_nest.Models.{
  ClickEvent, user, driver, broken, mysql, err_link_not_found, err_link_at_edge, err_email_taken,
  ok, err,
}
use link_nest.Store.Validate.{validate_link, signup_conflict, mysql_duplicate_entry}
use link_nest.Store.Validate.Urls.{Acceptable, validate_link_iff, signup_conflict_misled}
use link_nest.Store.Clicks.{insert_click, count_click, ingest_click}
use link_nest.Store.Clicks.Once.{Ingestion, ingest_click-Ingestion, ingest_click_once}
use link_nest.Store.Clicks.Counting.{IsCounted, ingest_click-IsCounted}
use mathlib.Core.List.Memᴰ
use link_nest.Store.World.{LinkRow, World, call, query, in_tx}
use link_nest.Store.Links.{create_link, delete_link, move_link, ordered_ids}
use link_nest.Store.Links.Delete.{Deletion, delete_link-Deletion}
use link_nest.Store.Links.Move.{Movement, move_link-Movement}
use link_nest.Store.Links.Create.{Creation, create_link-Creation}

abbrev row : ℕ → ℕ → ℕ → LinkRow
row id u position = record {
  link = record {
    id = id;
    user_id = u;
    title = lit "t";
    url = lit "/x";
    position = position;
    public = true;
    icon_color = lit "#3b82f6";
    click_count = 0;
  };
  updated_at = 5;
}

-- Two users; the links of the first share a position and leave a gap, as legacy rows do.
abbrev start : World
start = record {
  tables = record {
    users = [];
    sessions = [];
    links = row 1 7 0 ∷ row 2 7 0 ∷ row 3 8 0 ∷ row 4 7 9 ∷ [];
    click_events = [];
    stats = no_stats;
  };
  serials = record { user = 9; link = 5; event = 1; run = 1 };
  now = 100;
  faults = [];
}

abbrev failing : World
failing = record start { faults = none ∷ none ∷ some (broken 3) ∷ [] }

order_after_move : ordered_ids 7 (move_link 7 (pos 4) true start).1.tables.links ≡ 1 ∷ 4 ∷ 2 ∷ []
unfolding ordered_ids move_link in_tx query call
order_after_move = refl

move_at_edge : (move_link 7 (pos 1) true start).0 ≡ err (user err_link_at_edge)
unfolding ordered_ids move_link in_tx query call
move_at_edge = refl

move_fails : (move_link 7 (pos 4) true failing).0 ≡ err (driver (broken 3))
unfolding ordered_ids move_link in_tx query call
move_fails = refl

order_after_delete : ordered_ids 7 (delete_link 7 (pos 2) start).1.tables.links ≡ 1 ∷ 4 ∷ []
unfolding ordered_ids delete_link in_tx query call
order_after_delete = refl

delete_of_another : (delete_link 7 (pos 3) start).0 ≡ err (user err_link_not_found)
unfolding ordered_ids delete_link in_tx query call
delete_of_another = refl

delete_link-Deletion_example : Deletion 7 (pos 2) start (delete_link 7 (pos 2) start)
delete_link-Deletion_example = delete_link-Deletion 7 (pos 2) start (omega arith)

move_link-Movement_example :
    Movement 7
      (pos 4)
      true
      failing
      (move_link 7 (pos 4) true failing)
      (ordered_ids 7 failing.tables.links)
move_link-Movement_example = move_link-Movement 7 (pos 4) true failing (omega arith)

create_link-Creation_example :
    Creation sample 7
      (lit " New ")
      (lit "/n")
      true
      start
      (create_link sample 7 (lit " New ") (lit "/n") true start)
create_link-Creation_example = create_link-Creation sample 7 (lit " New ") (lit "/n") true start

abbrev click : ClickEvent
click = record {
  id = 0;
  idempotency_key = lit "k1";
  user_id = 7;
  link_id = 2;
  referrer = [];
  user_agent = [];
  ip_address = lit "1.2.3.4";
  country_code = [];
  device_type = lit "desktop";
  browser_name = lit "Firefox";
  event_time = 100;
}

abbrev counted_once : World
counted_once = (ingest_click sample click start).1

ingest_click-Ingestion_example : Ingestion sample click failing (ingest_click sample click failing)
ingest_click-Ingestion_example = ingest_click-Ingestion sample click failing

ingest_click-IsCounted_example : IsCounted (ingest_click sample click start).1.tables
ingest_click-IsCounted_example =
    ingest_click-IsCounted sample click start (refl, (refl, (refl, (refl, tt))))

first_click : (ingest_click sample click start).0 ≡ ok true
unfolding ingest_click insert_click count_click in_tx call
first_click = refl

-- Later, when another click has been recorded, and the second call of the driver is going to fail.
abbrev afterwards : World
afterwards = record counted_once {
  now = 500;
  tables = record (counted_once.tables) {
    click_events =
        counted_once.tables.click_events ++ record click { idempotency_key = lit "other" } ∷ [];
  };
  faults = none ∷ some (broken 1) ∷ [];
}

ingest_click_once_example :
    ((ingest_click sample (record click { ip_address = lit "5.6.7.8" }) afterwards).0 ≢ ok true)
    × ((ingest_click sample (record click { ip_address = lit "5.6.7.8" }) afterwards).1.tables
        ≡ afterwards.tables)
ingest_click_once_example =
    ingest_click_once sample click (record click { ip_address = lit "5.6.7.8" }) start afterwards
      true equals_refl refl first_click (λ e m. Memᴰ.append_left _ m)

validate_link_iff_example :
    (validate_link sample (lit "Home") (lit "https://a.example") ≡ none)
    ↔ Acceptable sample (lit "Home") (lit "https://a.example")
validate_link_iff_example = validate_link_iff sample (lit "Home") (lit "https://a.example")

signup_conflict_misled_example :
    signup_conflict (
      mysql mysql_duplicate_entry (
        lit "Duplicate entry '"
        ++ (lit "idx_users_email" ++ lit "' for key 'users.idx_users_username'")))
    ≡ user err_email_taken
unfolding contains
signup_conflict_misled_example =
    signup_conflict_misled (lit "Duplicate entry '") (lit "idx_users_email")
      (lit "' for key 'users.idx_users_username'") refl
