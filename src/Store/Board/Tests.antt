-- ===== src/Store/Board/Tests.antt =====
-- A dashboard on a small database.
use link_nest.Base.{ℕ, ◌≡◌, refl, true, none, [], ◌∷◌}
use link_nest.Text.{lit}
use link_nest.Platform.Sample.{sample}
use link_nest.Models.{User, Dashboard, ok}
use link_nest.Store.Stats.{no_stats}
use link_nest.Store.World.{LinkRow, World, call}
use link_nest.Store.Board.{dashboard}
use link_nest.Store.Board.Shown.{Shows, dashboard-Shows}

abbrev ann : User
ann = record {
  id = 7;
  email = lit "a@b.c";
  username = lit "ann";
  slug = lit "ann";
  first_name = lit "Ann";
  last_name = lit "B";
  bio = [];
  profile_color = [];
}

abbrev link_row : ℕ → ℕ → LinkRow
link_row id clicks = record {
  link = record {
    id = id;
    user_id = 7;
    title = lit "t";
    url = lit "/x";
    position = id;
    public = true;
    icon_color = [];
    click_count = clicks;
  };
  updated_at = 5;
}

abbrev small : World
small = record {
  tables = record {
    users = [];
    sessions = [];
    links = link_row 1 2 ∷ link_row 2 9 ∷ [];
    click_events = [];
    stats = record no_stats {
      daily =
          record {
            user_id = 7;
            date = 86400;
            total_clicks = 2;
            unique_visitors = 1;
            top_link_id = none;
            top_link_clicks = 0;
            updated_at = 5;
          }
          ∷ [];
    };
  };
  serials = record { user = 9; link = 5; event = 1; run = 1 };
  now = 100;
  faults = [];
}

abbrev shown : Dashboard
shown = record {
  user = ann;
  links = (link_row 1 2).link ∷ (link_row 2 9).link ∷ [];
  total_clicks = 0;
  unique_visitors = 0;
  top_links = (link_row 2 9).link ∷ (link_row 1 2).link ∷ [];
  daily =
      record {
        date = 86400;
        total_clicks = 2;
        unique_visitors = 1;
        top_link_id = 0;
        top_link_clicks = 0;
      }
      ∷ [];
}

dashboard_runs : dashboard sample ann small ≡ (ok shown, small)
unfolding dashboard call link_nest.Store.World.query
dashboard_runs = refl

dashboard-Shows_example : Shows sample ann small.tables shown
dashboard-Shows_example = dashboard-Shows sample ann small small shown dashboard_runs
