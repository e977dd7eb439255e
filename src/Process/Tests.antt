-- ===== src/Process/Tests.antt =====
-- A small history of the process: a visitor follows a link of a user, and signs up; the workers run.
use link_nest.Base.{
  ◌+◌, ◌%◌, ◌≡◌, ◌≢◌, refl, pos, true, none, some, none-ne-some, List, [], ◌∷◌, ◌++◌, if◌then◌else◌,
}
use Prim.Native.Nat.{◌^◌}
use link_nest.Text.{Text, lit, equals}
use link_nest.Platform.Sample.{sample}
use link_nest.Models.{User, Result, broken, ok}
use link_nest.Web.{find_cookie}
use link_nest.Metrics.{new_registry}
use link_nest.Metrics.Counters.{counter_of}
use link_nest.Store.Stats.{no_stats}
use link_nest.Store.World.{World}
use link_nest.Auth.Session.{cookie_name, sign}
use link_nest.Store.Reach.{Op, sign_up, open_session, run_op, fresh, ran, begun, next}
use link_nest.Store.Reach.Shown.{shown}
use link_nest.Http.{Request}
use link_nest.Http.Pages.{Server, plain_error}
use link_nest.Http.Routes.{Route, Library, serve, requests_total}
use link_nest.Http.Routes.Permitted.{Permitted}
use link_nest.Http.Pages.Signed.{SignedIn}
use link_nest.Http.Routes.Templates.{with_templates, serve-page_names}
use link_nest.Worker.{hourly, daily, failures_total, hourly_runs_total, daily_runs_total}
use link_nest.Startup.{Driver, Attempt, ensure_routes}
use link_nest.Process.{requested, ticked, elapsed, Input, event, interrupt, boot, process}
use link_nest.Process.Boots.{Booted, boot-Booted}
use link_nest.Process.History.{IsSound, process-IsSound, process-shown}
use link_nest.Http.Routes.Shelving.{Rearranged, serve-Rearranged}
use link_nest.Process.Counted.{requests_of, ticks_of, process-counted}

abbrev server : Server
server = record {
  platform = sample;
  cfg = record {
    addr = [];
    database_url = [];
    session_secret = lit "key";
    max_open_conns = pos 1;
    max_idle_conns = pos 1;
    conn_max_lifetime = 0;
  };
  execute = λ name page. some name;
  encode = λ _. [];
  status_text = λ _. [];
  generate = λ password. ok password;
  indexes = 0;
}

-- A multiplexer that knows a few paths.
abbrev library : Library
library = record {
  route = λ r.
      if equals r.path (lit "/register")
      then Route.register_route
      else if equals r.path (lit "/links")
      then Route.create_route
      else if equals r.path (lit "/links/3/track_click")
      then Route.track_route (lit "3")
      else Route.no_route;
  files = λ r. plain_error 404 [] [];
  unrouted = λ r. plain_error 404 [] [];
  average = λ _. [];
}

abbrev visit : Text → Request
visit path = record {
  path = path;
  cookies = [];
  parses = true;
  form = λ key. if equals key (lit "password") then lit "password" else lit "bob@x.org";
  query = λ _. [];
  header = λ _. [];
  host = lit "x.org";
  is_tls = true;
  remote_addr = lit "1.2.3.4:5";
  remote_host = some (lit "1.2.3.4");
}

abbrev random_bytes : Result Text
random_bytes = ok (1 ∷ 2 ∷ 3 ∷ [])

abbrev one_link : World
one_link = record {
  tables = record {
    users = [];
    sessions = [];
    links =
        record {
          link = record {
            id = 3;
            user_id = 7;
            title = lit "t";
            url = lit "/x";
            position = 0;
            public = true;
            icon_color = [];
            click_count = 0;
          };
          updated_at = 5;
        }
        ∷ [];
    click_events = [];
    stats = no_stats;
  };
  serials = record { user = 8; link = 4; event = 1; run = 1 };
  now = 100;
  faults = none ∷ none ∷ some (broken 1) ∷ [];
}

abbrev events : List Input
events =
    event (requested (visit (lit "/links/3/track_click")) 100 random_bytes 5)
    ∷ event (elapsed 200 [])
    ∷ event (requested (visit (lit "/register")) 200 random_bytes 9)
    ∷ event (ticked (record { job = hourly; now = 4000; duration = 5 }))
    ∷ event (ticked (record { job = daily; now = 90000; duration = 7 }))
    ∷ event (requested (visit (lit "/links/3/track_click")) 90100 random_bytes 4)
    ∷ interrupt
    ∷ event (requested (visit (lit "/")) 90200 random_bytes 4)
    ∷ []

serve-page_names_example :
    serve
      (with_templates server
        (λ name page. if equals name (lit "old.html") then none else some name))
      library
      (visit (lit "/register"))
      100
      random_bytes
      5
      new_registry
      one_link
    ≡ serve server library (visit (lit "/register")) 100 random_bytes 5 new_registry one_link
unfolding equals
serve-page_names_example =
    serve-page_names server (λ name page. if equals name (lit "old.html") then none else some name)
      library (visit (lit "/register")) 100 random_bytes 5 new_registry one_link
      (
        λ page. refl,
        (λ page. refl, (λ page. refl, (λ page. refl, (λ page. refl, (λ page. refl, tt))))),
      )

process-IsSound_example :
    IsSound sample (process server library events new_registry (fresh 100 [])).2
process-IsSound_example =
    process-IsSound server library events new_registry (fresh 100 []) (begun 100 [])

-- A visitor has no cookie.
visit-SignedIn : (path : Text) {w : World} {u : User} → SignedIn server (visit path) w u → 7 ≢ u.id
unfolding find_cookie
visit-SignedIn path h = absurd (none-ne-some _ (h.cookie))

process-shown_example :
    shown 7 (process server library events new_registry one_link).2.tables.links
    ≡ shown 7 one_link.tables.links
process-shown_example = process-shown server library 7 events new_registry one_link (
  λ u h. visit-SignedIn (lit "/links/3/track_click") h,
  (
    tt,
    (
      λ u h. visit-SignedIn (lit "/register") h,
      (tt, (tt, (λ u h. visit-SignedIn (lit "/links/3/track_click") h, tt))),
    ),
  ),
)

process-counted_example :
    let m = (process server library events new_registry one_link).1 in
    (counter_of requests_total m ≡ requests_of events % 2 ^ 64)
    × ((counter_of failures_total m
            + counter_of hourly_runs_total m
            + counter_of daily_runs_total m)
          % 2 ^ 64
        ≡ ticks_of events % 2 ^ 64)
process-counted_example = process-counted server library events one_link

abbrev driver : Driver
driver = record {
  parse = λ raw. some (record {
    username = lit "u";
    password = lit "p";
    host = lit "h:1";
    path = lit "/db";
    tls = [];
  });
  format_dsn = λ c. c.user ++ c.addr ++ c.db_name;
}

abbrev awake : Attempt
awake = record { opens = true; pings = true; migrates = true }

boot-Booted_example :
    Booted driver
      (λ _. [])
      awake
      (boot driver (λ _. []) awake)
      (ensure_routes driver (λ _. []) awake none)
boot-Booted_example = boot-Booted driver (λ _. []) awake

-- An account, and its session.
abbrev signed_up : Op
signed_up =
    sign_up (λ password. ok password) (lit "bob@x.org") (lit "password") (lit "bob") (lit "Bob")
      (lit "C")

abbrev opened : Op
opened = open_session random_bytes 100 1 (lit "1.2.3.4") []

abbrev settled : World
settled = run_op sample opened (run_op sample signed_up (fresh 100 []))

abbrev add_link : Request
add_link = record (visit (lit "/links")) {
  cookies = (cookie_name, sign sample (lit "AQID") (lit "key")) ∷ [];
}

serve-Rearranged_example :
    Rearranged server add_link settled
      (serve server library add_link 100 random_bytes 5 new_registry settled).2.tables
serve-Rearranged_example =
    serve-Rearranged server library add_link 100 random_bytes 5 new_registry settled
      (next (next (begun 100 []) (ran signed_up)) (ran opened))
