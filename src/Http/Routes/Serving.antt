-- ===== src/Http/Routes/Serving.antt =====
-- A request to http/server.go does to the database what its route permits, and nothing else.
use link_nest.Base.{List, ℕ, refl, true, ◌||◌, pos}
use link_nest.Text.{Text, lit, equals, contains}
use link_nest.Models.{User, Link, Dashboard, ClickEvent, Result, ok, err}
use link_nest.Metrics.{Registry}
use link_nest.Web.{find_cookie}
use link_nest.Auth.Session.{cookie_name}
use link_nest.Store.World.{World}
use link_nest.Store.Reads.Quiet.{
  user_by_slug-ReadOnly, links_for_user-ReadOnly, dashboard-ReadOnly, api_history-ReadOnly,
  explain_indexes-ReadOnly,
}
use link_nest.Store.Reach.Runs.{done, RunsTo, RunsTo-read, to}
use link_nest.Http.{Request, link_id, reserved_slug}
use link_nest.Http.Pages.{Server}
use link_nest.Http.Pages.Reading.{render_page-ReadOnly, render_error-ReadOnly}
use link_nest.Http.Replies.{
  create_link_handler, update_link_handler, delete_link_handler, move_link_handler, track_click,
}
use link_nest.Http.Accounts.{register_form, login_form, logout}
use link_nest.Http.Profiles.{
  home, dashboard_page, update_profile_handler, public_profile, api_events, api_status, boarded,
  with_links, with_owner, listed, described,
}
use link_nest.Http.Routes.{Route, Library, handle, serve}
use link_nest.Http.Routes.Permitted.{Permitted}
use link_nest.Http.Routes.Ending.{Ends, not_found-Ends, require_auth-Ends, choice-Ends}
use link_nest.Http.Routes.Changing.{
  create_link_handler-Ends, update_link_handler-Ends, delete_link_handler-Ends,
  move_link_handler-Ends, update_profile_handler-Ends, register-Ends, login-Ends,
  end_by_cookie-Ends, track_id-Ends,
}

module _ (s : Server) (r : Request) (now : ℕ) (random : Result Text) (w : World) where
  home-Ends : (route : Route) → Ends s r now random w route (home s r w).1
  unfolding home
  home-Ends route =
      choice-Ends s r now random w route (equals r.path (lit "/")) _ _
        (RunsTo-read _ (render_page-ReadOnly s r _ _) (to done))
        (not_found-Ends s r now random w route w (to done))

  boarded-Ends :
      (route : Route) (x : Result Dashboard × World)
      → Ends s r now random w route x.1
      → Ends s r now random w route (boarded s r x).1
  boarded-Ends route (ok d, v) runs = RunsTo-read _ (render_page-ReadOnly s r _ _) runs
  boarded-Ends route (err e, v) runs = RunsTo-read _ (render_error-ReadOnly s r _ _) runs

  with_links-Ends :
      (route : Route) (u : User) (x : Result (List Link) × World)
      → Ends s r now random w route x.1
      → Ends s r now random w route (with_links s r u x).1
  with_links-Ends route u (ok links, v) runs = RunsTo-read _ (render_page-ReadOnly s r _ _) runs
  with_links-Ends route u (err e, v) runs = RunsTo-read _ (render_error-ReadOnly s r _ _) runs

  with_owner-Ends :
      (route : Route) (x : Result User × World)
      → Ends s r now random w route x.1
      → Ends s r now random w route (with_owner s r x).1
  with_owner-Ends route (ok u, v) runs =
      with_links-Ends route u _
        (RunsTo-read _ (links_for_user-ReadOnly u.id true (pos 100) (pos 0)) runs)
  with_owner-Ends route (err e, v) runs = not_found-Ends s r now random w route v runs

  public_profile-Ends :
      (route : Route) (slug : Text) → Ends s r now random w route (public_profile s r slug w).1
  unfolding public_profile
  public_profile-Ends route slug =
      choice-Ends s r now random w route (contains slug (lit ".") || reserved_slug slug) _ _
        (not_found-Ends s r now random w route w (to done))
        (with_owner-Ends route _ (RunsTo-read _ (user_by_slug-ReadOnly s.platform slug) (to done)))

  listed-Ends :
      (route : Route) (x : Result (List ClickEvent) × World)
      → Ends s r now random w route x.1
      → Ends s r now random w route (listed s r x).1
  listed-Ends route (ok es, v) runs = runs
  listed-Ends route (err e, v) runs = runs

  described-Ends :
      (route : Route) (x : Result Text × World)
      → Ends s r now random w route x.1
      → Ends s r now random w route (described s r x).1
  described-Ends route (ok summary, v) runs = runs
  described-Ends route (err e, v) runs = runs

  module _ (l : Library) (m : Registry) where
    handle-Ends :
        (route : Route) → Ends s r now random w route (handle s l r now random route m w).2
    unfolding handle
    handle-Ends Route.static_route = to done
    handle-Ends Route.home_route = home-Ends _
    handle-Ends Route.up_route = to done
    handle-Ends Route.metrics_route = to done
    handle-Ends Route.register_form_route =
        unfold register_form in RunsTo-read _ (render_page-ReadOnly s r _ _) (to done)
    handle-Ends Route.register_route = register-Ends s r now random w
    handle-Ends Route.login_form_route =
        unfold login_form in RunsTo-read _ (render_page-ReadOnly s r _ _) (to done)
    handle-Ends Route.login_route = login-Ends s r now random w
    handle-Ends Route.logout_route =
        unfold logout in
        end_by_cookie-Ends s r now random w (find_cookie cookie_name r.cookies) refl
    handle-Ends Route.dashboard_route =
        require_auth-Ends s r now random w _ (dashboard_page s r) (λ u h v runs.
          unfold dashboard_page in
          boarded-Ends _ _ (RunsTo-read _ (dashboard-ReadOnly s.platform u) (to runs)))
    handle-Ends Route.profile_route =
        require_auth-Ends s r now random w _ (update_profile_handler s r)
          (update_profile_handler-Ends s r now random w)
    handle-Ends Route.create_route =
        require_auth-Ends s r now random w _ (create_link_handler s r)
          (create_link_handler-Ends s r now random w)
    handle-Ends (Route.update_route id) =
        require_auth-Ends s r now random w _ (λ u v. update_link_handler s r u v id)
          (λ u h v. update_link_handler-Ends s r now random w u h v id)
    handle-Ends (Route.delete_route id) =
        require_auth-Ends s r now random w _ (λ u v. delete_link_handler s r u v id)
          (λ u h v. delete_link_handler-Ends s r now random w u h v id)
    handle-Ends (Route.move_route id) =
        require_auth-Ends s r now random w _ (λ u v. move_link_handler s r u v id)
          (λ u h v. move_link_handler-Ends s r now random w u h v id)
    handle-Ends (Route.track_route id) =
        unfold track_click in track_id-Ends s r now random w id m (link_id id) refl
    handle-Ends Route.events_route =
        require_auth-Ends s r now random w _ (api_events s r) (λ u h v runs.
          unfold api_events in
          listed-Ends _ _ (RunsTo-read _ (api_history-ReadOnly u.id _ _) (to runs)))
    handle-Ends Route.status_route =
        require_auth-Ends s r now random w _ (λ _. api_status s r)
          (λ u h v runs.
            unfold api_status in
            described-Ends _ _ (RunsTo-read _ (explain_indexes-ReadOnly s.indexes) (to runs)))
    handle-Ends (Route.public_route slug) = public_profile-Ends _ slug
    handle-Ends Route.no_route = to done

pub serve-Permitted :
    (s : Server) (l : Library) (r : Request) (now : ℕ) (random : Result Text) (duration : ℕ)
    (m : Registry) (w : World)
    → RunsTo s.platform
        (Permitted s r now random w (l.route r))
        w
        (serve s l r now random duration m w).2
unfolding serve
serve-Permitted s l r now random duration m w = handle-Ends s r now random w l m (l.route r)
