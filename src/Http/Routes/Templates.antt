-- ===== src/Http/Routes/Templates.antt =====
-- Every page that http/server.go renders is one of those that app/app.go parses.
use link_nest.Base.{
  ℕ, ℤ, ◌≡◌, refl, ap, Bool, true, false, Option, none, some, List, if◌then◌else◌, ◌||◌, All,
}
use link_nest.Text.{Text, lit, equals, contains}
use link_nest.Models.{User, Link, Dashboard, Result, ok, err}
use link_nest.Metrics.{Registry, inc, observe}
use link_nest.Store.World.{World}
use link_nest.App.{page_names}
use link_nest.Http.{Request, link_id, reserved_slug, site_url}
use link_nest.Auth.Flash.{take_flash}
use link_nest.Http.Pages.{
  Content, Page, Server, Response, written, current_user, render_status, render_page, render_error,
  not_found, bad_form,
}
use link_nest.Http.Replies.{
  create_link_handler, update_link_handler, delete_link_handler, move_link_handler,
}
use link_nest.Http.Accounts.{
  register_form, register, login_form, login, logout, require_auth, gated, with_session, registered,
  logged_in,
}
use link_nest.Http.Profiles.{
  home, dashboard_page, update_profile_handler, public_profile, boarded, with_links, with_owner,
  api_events, api_status,
}
use link_nest.Http.Routes.{Route, Library, handle, serve, requests_total}

-- Two ways to execute a template do the same on the pages of these names.
abbrev pub AgreeOn : List Text → (Text → Page → Option Text) → (Text → Page → Option Text) → Type 0
AgreeOn names e e' = All (λ name. (page : Page) → e name page ≡ e' name page) names

-- The server with other templates.
abbrev pub with_templates : Server → (Text → Page → Option Text) → Server
with_templates s e = record s { execute = e }

module _ (s : Server) (e : Text → Page → Option Text) (r : Request) where
  abbrev s' : Server
  s' = with_templates s e

  render_status-agrees :
      (status : ℕ) (name : Text) (content : Content) (w : World)
      → ((page : Page) → e name page ≡ s.execute name page)
      → render_status s' r status name content w ≡ render_status s r status name content w
  unfolding render_status current_user
  render_status-agrees status name content w h =
      let (signed, w') = current_user s r w in
      let (flash, cookies) = take_flash r.cookies in
      let page : Page = record {
        current_user = signed.0;
        flash = flash;
        site_url = site_url r;
        content = content;
      } in
      ap (λ html. (written s r status cookies html, w')) (h page)

  module _ (agree : AgreeOn page_names e (s.execute)) where
    render_error-agrees :
        (status : ℕ) (message : Text) (w : World)
        → render_error s' r status message w ≡ render_error s r status message w
    unfolding render_error
    render_error-agrees status message w = render_status-agrees status _ _ w (agree.1.1.1.1.1.0)

    not_found-agrees : (w : World) → not_found s' r w ≡ not_found s r w
    unfolding not_found
    not_found-agrees w = render_error-agrees _ _ w

    form-agrees :
        (b : Bool) (m m' : Response × World) (w : World)
        → m' ≡ m
        → (if b then m' else bad_form s' r w) ≡ (if b then m else bad_form s r w)
    form-agrees true m m' w h = h
    form-agrees false m m' w h = render_error-agrees _ _ w

    require_auth-agrees :
        (next next' : User → World → Response × World) (w : World)
        → ((u : User) (v : World) → next' u v ≡ next u v)
        → require_auth s' r next' w ≡ require_auth s r next w
    unfolding require_auth current_user
    require_auth-agrees next next' w h = go (current_user s r w)
      where
        go : (x : (User × Bool) × World) → gated s' r next' x ≡ gated s r next x
        go ((u, true), v) = h u v
        go ((u, false), v) = refl

    home-agrees : (w : World) → home s' r w ≡ home s r w
    unfolding home render_page
    home-agrees w = choose (equals r.path (lit "/"))
      where
        choose :
            (b : Bool)
            → (if b
                then render_status s' r 200 (lit "home.html") Content.home_page w
                else not_found s' r w)
              ≡ (if b
                  then render_status s r 200 (lit "home.html") Content.home_page w
                  else not_found s r w)
        choose true = render_status-agrees _ _ _ w (agree.0)
        choose false = not_found-agrees w

    register_form-agrees : (w : World) → register_form s' r w ≡ register_form s r w
    unfolding register_form render_page
    register_form-agrees w = render_status-agrees _ _ _ w (agree.1.1.0)

    login_form-agrees : (w : World) → login_form s' r w ≡ login_form s r w
    unfolding login_form render_page
    login_form-agrees w = render_status-agrees _ _ _ w (agree.1.0)

    with_session-agrees :
        (now : ℕ) (problem : Text) (x : Result Text × World)
        → with_session s' r now problem x ≡ with_session s r now problem x
    with_session-agrees now problem (ok id, w) = refl
    with_session-agrees now problem (err d, w) = render_error-agrees _ _ w

    registered-agrees :
        (now : ℕ) (random : Result Text) (x : Result User × World)
        → registered s' r now random x ≡ registered s r now random x
    unfolding render_page
    registered-agrees now random (ok u, w) = with_session-agrees now _ _
    registered-agrees now random (err d, w) = render_status-agrees _ _ _ w (agree.1.1.0)

    logged_in-agrees :
        (now : ℕ) (random : Result Text) (x : Result User × World)
        → logged_in s' r now random x ≡ logged_in s r now random x
    unfolding render_page
    logged_in-agrees now random (ok u, w) = with_session-agrees now _ _
    logged_in-agrees now random (err d, w) = render_status-agrees _ _ _ w (agree.1.0)

    boarded-agrees : (x : Result Dashboard × World) → boarded s' r x ≡ boarded s r x
    unfolding render_page
    boarded-agrees (ok d, w) = render_status-agrees _ _ _ w (agree.1.1.1.0)
    boarded-agrees (err d, w) = render_error-agrees _ _ w

    with_links-agrees :
        (u : User) (x : Result (List Link) × World) → with_links s' r u x ≡ with_links s r u x
    unfolding render_page
    with_links-agrees u (ok links, w) = render_status-agrees _ _ _ w (agree.1.1.1.1.0)
    with_links-agrees u (err d, w) = render_error-agrees _ _ w

    with_owner-agrees : (x : Result User × World) → with_owner s' r x ≡ with_owner s r x
    with_owner-agrees (ok u, w) = with_links-agrees u _
    with_owner-agrees (err d, w) = not_found-agrees w

    public_profile-agrees :
        (slug : Text) (w : World) → public_profile s' r slug w ≡ public_profile s r slug w
    unfolding public_profile
    public_profile-agrees slug w = choose (contains slug (lit ".") || reserved_slug slug) _
      where
        choose :
            (b : Bool) (x : Result User × World)
            → (if b then not_found s' r w else with_owner s' r x)
              ≡ (if b then not_found s r w else with_owner s r x)
        choose true x = not_found-agrees w
        choose false x = with_owner-agrees x

    named-agrees :
        (o : Option ℤ) (f f' : ℤ → Response × World) (w : World)
        → ((id : ℤ) → f' id ≡ f id)
        → (elim o as (λ _. Response × World) [ none ↦ not_found s' r w | some id ↦ f' id ])
          ≡ (elim o as (λ _. Response × World) [ none ↦ not_found s r w | some id ↦ f id ])
    named-agrees none f f' w h = not_found-agrees w
    named-agrees (some id) f f' w h = h id

    -- The handlers that are behind `require_auth`.
    module _ (u : User) (w : World) where
      dashboard_page-agrees : dashboard_page s' r u w ≡ dashboard_page s r u w
      unfolding dashboard_page
      dashboard_page-agrees = boarded-agrees _

      update_profile_handler-agrees :
          update_profile_handler s' r u w ≡ update_profile_handler s r u w
      unfolding update_profile_handler
      update_profile_handler-agrees = form-agrees r.parses _ _ w refl

      create_link_handler-agrees : create_link_handler s' r u w ≡ create_link_handler s r u w
      unfolding create_link_handler
      create_link_handler-agrees = form-agrees r.parses _ _ w refl

      module _ (path : Text) where
        update_link_handler-agrees :
            update_link_handler s' r u w path ≡ update_link_handler s r u w path
        unfolding update_link_handler
        update_link_handler-agrees =
            named-agrees (link_id path) _ _ w (λ n. form-agrees r.parses _ _ w refl)

        delete_link_handler-agrees :
            delete_link_handler s' r u w path ≡ delete_link_handler s r u w path
        unfolding delete_link_handler
        delete_link_handler-agrees = named-agrees (link_id path) _ _ w (λ n. refl)

        move_link_handler-agrees : move_link_handler s' r u w path ≡ move_link_handler s r u w path
        unfolding move_link_handler
        move_link_handler-agrees = named-agrees (link_id path) _ _ w (λ n. refl)

    register-agrees :
        (now : ℕ) (random : Result Text) (w : World)
        → register s' r now random w ≡ register s r now random w
    unfolding register
    register-agrees now random w = form-agrees r.parses _ _ w (registered-agrees now random _)

    login-agrees :
        (now : ℕ) (random : Result Text) (w : World)
        → login s' r now random w ≡ login s r now random w
    unfolding login
    login-agrees now random w = form-agrees r.parses _ _ w (logged_in-agrees now random _)

    module _ (l : Library) (now : ℕ) (random : Result Text) where
      abbrev recorded : Registry → Response × World → Response × Registry × World
      recorded m (response, w) = (response, m, w)

      handle-agrees :
          (route : Route) (m : Registry) (w : World)
          → handle s' l r now random route m w ≡ handle s l r now random route m w
      unfolding handle logout api_events api_status
      handle-agrees Route.static_route m w = refl
      handle-agrees Route.home_route m w = ap (recorded m) (home-agrees w)
      handle-agrees Route.up_route m w = refl
      handle-agrees Route.metrics_route m w = refl
      handle-agrees Route.register_form_route m w = ap (recorded m) (register_form-agrees w)
      handle-agrees Route.register_route m w = ap (recorded m) (register-agrees now random w)
      handle-agrees Route.login_form_route m w = ap (recorded m) (login_form-agrees w)
      handle-agrees Route.login_route m w = ap (recorded m) (login-agrees now random w)
      handle-agrees Route.logout_route m w = refl
      handle-agrees Route.dashboard_route m w =
          ap (recorded m) (require_auth-agrees _ _ w dashboard_page-agrees)
      handle-agrees Route.profile_route m w =
          ap (recorded m) (require_auth-agrees _ _ w update_profile_handler-agrees)
      handle-agrees Route.create_route m w =
          ap (recorded m) (require_auth-agrees _ _ w create_link_handler-agrees)
      handle-agrees (Route.update_route id) m w =
          ap (recorded m) (require_auth-agrees _ _ w (λ u v. update_link_handler-agrees u v id))
      handle-agrees (Route.delete_route id) m w =
          ap (recorded m) (require_auth-agrees _ _ w (λ u v. delete_link_handler-agrees u v id))
      handle-agrees (Route.move_route id) m w =
          ap (recorded m) (require_auth-agrees _ _ w (λ u v. move_link_handler-agrees u v id))
      handle-agrees (Route.track_route id) m w = refl
      handle-agrees Route.events_route m w =
          ap (recorded m) (require_auth-agrees (api_events s r) (api_events s' r) w (λ u v. refl))
      handle-agrees Route.status_route m w =
          ap (recorded m)
            (require_auth-agrees (λ _. api_status s r) (λ _. api_status s' r) w (λ u v. refl))
      handle-agrees (Route.public_route slug) m w = ap (recorded m) (public_profile-agrees slug w)
      handle-agrees Route.no_route m w = refl

-- Whatever the request: the server's answer, the metrics and the database depend only on how the
-- templates named in `PageNames` are executed, so no page is asked for that `New` has not parsed.
pub serve-page_names :
    (s : Server) (e : Text → Page → Option Text) (l : Library) (r : Request) (now : ℕ)
    (random : Result Text) (duration : ℕ) (m : Registry) (w : World)
    → AgreeOn page_names e (s.execute)
    → serve (with_templates s e) l r now random duration m w ≡ serve s l r now random duration m w
unfolding serve
serve-page_names s e l r now random duration m w agree =
    ap
      (λ (x : Response × Registry × World).
        let (response, m', w') = x in
        (
          response,
          observe (lit "linknest_http_request_duration") duration (inc requests_total 1 m'),
          w',
        ))
      (handle-agrees s e r agree l now random (l.route r) m w)
