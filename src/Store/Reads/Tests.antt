-- ===== src/Store/Reads/Tests.antt =====
-- Lists read from a small database.
use link_nest.Store.Stats.{no_stats}
use link_nest.Base.{
  ℕ, ◌≤◌, pos, ◌≡◌, refl, true, false, List, [], ◌∷◌, map, take, length, arith, All,
}
use link_nest.Text.{lit}
use link_nest.Models.{Link, ClickEvent, ok}
use link_nest.Store.World.{LinkRow, World, call, query, scan_rows}
use link_nest.Store.Links.{ordered_ids}
use link_nest.Store.Reads.{
  page_limit, select, insert_by, sort_by, listing, links_for_user, history, api_history,
}
use link_nest.Store.Reads.Bounds.{IsPublicOf, links_for_user-IsPublicOf}
use link_nest.Store.Reads.Listing.{listing-ordered_ids}

abbrev link : ℕ → ℕ → Link
link id position = record {
  id = id;
  user_id = 7;
  title = lit "t";
  url = lit "/x";
  position = position;
  public = true;
  icon_color = [];
  click_count = 0;
}

abbrev event : ℕ → ClickEvent
event id = record {
  id = id;
  idempotency_key = [];
  user_id = 7;
  link_id = 1;
  referrer = [];
  user_agent = [];
  ip_address = [];
  country_code = [];
  device_type = [];
  browser_name = [];
  event_time = 0;
}

abbrev rows : List LinkRow
rows = record { link = link 1 5; updated_at = 0 } ∷ record { link = link 2 0; updated_at = 0 } ∷ []

abbrev start : World
start = record {
  tables = record {
    users = [];
    sessions = [];
    links = rows;
    click_events = event 1 ∷ event 2 ∷ [];
    stats = no_stats;
  };
  serials = record { user = 8; link = 3; event = 3; run = 1 };
  now = 0;
  faults = [];
}

read_links : links_for_user 7 true (pos 0) (pos 0) start ≡ (ok (link 2 0 ∷ link 1 5 ∷ []), start)
unfolding links_for_user listing page_limit select sort_by insert_by call scan_rows query
read_links = refl

read_history : api_history 7 (pos 1) (pos 1) start ≡ (ok (event 2 ∷ []), start)
unfolding api_history history page_limit select sort_by insert_by call scan_rows query
read_history = refl

links_for_user-IsPublicOf_example :
    (length (link 2 0 ∷ link 1 5 ∷ []) ≤ 100) × All (IsPublicOf 7) (link 2 0 ∷ link 1 5 ∷ [])
links_for_user-IsPublicOf_example =
    links_for_user-IsPublicOf 7 (pos 0) (pos 0) start start (link 2 0 ∷ link 1 5 ∷ []) read_links

listing-ordered_ids_example :
    map (λ (l : Link). l.id) (listing 7 false (pos 10) (pos 0) rows)
    ≡ take (page_limit (pos 10)) (ordered_ids 7 rows)
listing-ordered_ids_example = listing-ordered_ids 7 (pos 10) rows (omega arith)
