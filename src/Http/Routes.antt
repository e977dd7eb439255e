-- ===== src/Http/Routes.antt =====
-- The routes of http/server.go. `net/http`'s multiplexer, which picks the route of a request, and its
-- file server are parameters.
pub mod Permitted
pub mod Ending
pub mod Changing
pub mod Serving
pub mod Apart
pub mod Shelving
pub mod Templates
use link_nest.Base.{ℕ, none, [], ◌==◌, List, if◌then◌else◌}
use link_nest.Text.{Text, lit}
use link_nest.Models.{User, Result}
use link_nest.Metrics.{Registry, inc, observe, render}
use link_nest.Store.World.{World}
use link_nest.Http.{Request}
use link_nest.Http.Pages.{Server, Response, plain_error}
use link_nest.Http.Replies.{
  create_link_handler, update_link_handler, delete_link_handler, move_link_handler, track_click,
}
use link_nest.Http.Accounts.{register_form, register, login_form, login, logout, require_auth}
use link_nest.Http.Profiles.{
  up, home, dashboard_page, update_profile_handler, public_profile, api_events, api_status,
}

-- A pattern with the value of its wildcard.
pub data Route : Type 0 where
  static_route home_route up_route metrics_route : Route
  register_form_route register_route login_form_route login_route logout_route : Route
  dashboard_route profile_route create_route : Route
  update_route delete_route move_route track_route : Text → Route
  events_route status_route : Route
  public_route : Text → Route
  -- no handler of the server: the multiplexer answers
  no_route : Route

-- What the library does for a request: the choice of a route, the file server, and `%.6f` of the mean of durations.
pub record Library : Type 0 where
  pub route : Request → Route
  pub files : Request → Response
  pub unrouted : Request → Response
  pub average : List ℕ → Text

abbrev with_metrics : Registry → Response × World → Response × Registry × World
with_metrics m (response, w) = (response, m, w)

abbrev pub requests_total : Text
requests_total = lit "linknest_http_requests_total"

-- `metrics.Handler`.
unfoldable pub metrics_page : Library → Registry → Response
metrics_page l m = record {
  status = 200;
  location = none;
  cookies = [];
  content_type = lit "text/plain; version=0.0.4";
  body = render l.average m;
}

-- The response of `trackClick`, by its status.
unfoldable pub track_response : ℕ → Response
track_response status =
    if status == 202
    then record { status = 202; location = none; cookies = []; content_type = []; body = [] }
    else if status == 404
    then plain_error 404 (lit "404 page not found") []
    else plain_error status (lit "tracking failed") []

abbrev track_ended : ℕ × Registry × World → Response × Registry × World
track_ended (status, m, w) = (track_response status, m, w)

module _ (s : Server) (l : Library) (r : Request) (now : ℕ) (random : Result Text) where
  abbrev signed_in :
      (User → World → Response × World) → Registry → World → Response × Registry × World
  signed_in next m w = with_metrics m (require_auth s r next w)

  unfoldable pub handle : Route → Registry → World → Response × Registry × World
  unfolding metrics_page track_response
  handle static_route m w = (l.files r, m, w)
  handle home_route m w = with_metrics m (home s r w)
  handle up_route m w = (up, m, w)
  handle metrics_route m w = (metrics_page l m, m, w)
  handle register_form_route m w = with_metrics m (register_form s r w)
  handle register_route m w = with_metrics m (register s r now random w)
  handle login_form_route m w = with_metrics m (login_form s r w)
  handle login_route m w = with_metrics m (login s r now random w)
  handle logout_route m w = with_metrics m (logout s r w)
  handle dashboard_route m w = signed_in (dashboard_page s r) m w
  handle profile_route m w = signed_in (update_profile_handler s r) m w
  handle create_route m w = signed_in (create_link_handler s r) m w
  handle (update_route id) m w = signed_in (λ u w. update_link_handler s r u w id) m w
  handle (delete_route id) m w = signed_in (λ u w. delete_link_handler s r u w id) m w
  handle (move_route id) m w = signed_in (λ u w. move_link_handler s r u w id) m w
  handle (track_route id) m w = track_ended (track_click s.platform r id now m w)
  handle events_route m w = signed_in (api_events s r) m w
  handle status_route m w = signed_in (λ _. api_status s r) m w
  handle (public_route slug) m w = with_metrics m (public_profile s r slug w)
  handle no_route m w = (l.unrouted r, m, w)

  -- `instrument`, around the multiplexer; the handler takes `duration`.
  unfoldable pub serve : ℕ → Registry → World → Response × Registry × World
  unfolding handle
  serve duration m w =
      let (response, m', w') = handle (l.route r) m w in
      (
        response,
        observe (lit "linknest_http_request_duration") duration (inc requests_total 1 m'),
        w',
      )
