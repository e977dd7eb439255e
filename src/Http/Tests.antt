-- ===== src/Http/Tests.antt =====
-- Requests on examples.
use link_nest.Store.Stats.{no_stats}
use link_nest.Base.{◌+◌, ◌≡◌, true, none, some, [], ◌∷◌, arith, ltb, if◌then◌else◌}
use link_nest.Text.{lit, equals}
use link_nest.Platform.Sample.{sample}
use link_nest.Models.{err, driver, broken}
use link_nest.Web.{receive, sent}
use link_nest.Auth.Flash.{take_flash}
use link_nest.Metrics.{new_registry}
use link_nest.Store.World.{World}
use link_nest.Http.{Request, safe_url}
use link_nest.Http.Urls.{IsSafe, safe_url-IsSafe}
use link_nest.Http.Replies.{flash_result, track_click}
use link_nest.Http.Replies.Shown.{expected, flash_result_shown}
use link_nest.Http.Replies.Tracking.{Tracked, track_click-Tracked}

abbrev request : Request
request = record {
  path = lit "/links/3/track_click";
  cookies = [];
  parses = true;
  form = λ _. [];
  query = λ _. [];
  header = λ key. if equals key (lit "User-Agent") then lit "Firefox" else [];
  host = lit "x.org";
  is_tls = true;
  remote_addr = lit "1.2.3.4:5";
  remote_host = some (lit "1.2.3.4");
}

abbrev one_link : World
one_link = record {
  tables = record {
    users = [];
    sessions = [];
    links =
        record {
          link = record {
            id = 3;
            user_id = 7;
            title = lit "t";
            url = lit "/x";
            position = 0;
            public = true;
            icon_color = [];
            click_count = 0;
          };
          updated_at = 5;
        }
        ∷ [];
    click_events = [];
    stats = no_stats;
  };
  serials = record { user = 8; link = 4; event = 1; run = 1 };
  now = 100;
  faults = none ∷ none ∷ none ∷ some (broken 1) ∷ [];
}

safe_url-IsSafe_example : IsSafe sample (safe_url sample (lit "javascript:alert(1)"))
safe_url-IsSafe_example = safe_url-IsSafe sample (lit "javascript:alert(1)")

flash_result_shown_example :
    (take_flash (
      sent 70 (
        receive 30 [] (
          flash_result (err (driver (broken 1))) (lit "Link deleted.") (lit "We couldn't.")
          ∷ [])))).0
    ≡ (if ltb 70 (30 + 60)
        then some (expected (err (driver (broken 1))) (lit "Link deleted.") (lit "We couldn't."))
        else none)
flash_result_shown_example =
    flash_result_shown 30 70 [] (err (driver (broken 1))) (lit "Link deleted.") (lit "We couldn't.")
      (omega arith) (omega arith)

track_click-Tracked_example :
    Tracked sample request
      (lit "3")
      100
      new_registry
      one_link
      (track_click sample request (lit "3") 100 new_registry one_link)
track_click-Tracked_example = track_click-Tracked sample request (lit "3") 100 new_registry one_link
