-- ===== src/Http/Routes/Changing.antt =====
-- How the handlers of http/server.go that write to the database end.
use link_nest.Base.{[], ◌∷◌, ℕ, ℤ, ◌≡◌, refl, ap, sym, ◌∙◌, Bool, true, false, Option, none, some}
use link_nest.Text.{Text, lit}
use link_nest.Models.{User, Link, Result, ok, err}
use link_nest.Metrics.{Registry}
use link_nest.Web.{find_cookie}
use link_nest.Auth.Session.{cookie_name, verify}
use link_nest.Auth.Session.Signing.{verify_iff}
use link_nest.Store.World.{World, call}
use link_nest.Store.World.Runs.{bind_inv, Passed-call-tables}
use link_nest.Store.Users.{create_user, authenticate}
use link_nest.Store.Clicks.{find_public, link_for_tracking}
use link_nest.Store.Reads.Quiet.{authenticate-ReadOnly, link_for_tracking-ReadOnly}
use link_nest.Store.Reach.{sign_up, run_op}
use link_nest.Store.Reach.Runs.{done, called, Runs-read, RunsTo-read, to}
use link_nest.Http.{Request, link_id}
use link_nest.Http.Pages.{Server, render_error}
use link_nest.Http.Pages.Signed.{SignedIn}
use link_nest.Http.Pages.Reading.{render_page-ReadOnly, render_error-ReadOnly}
use link_nest.Http.Replies.{
  answered, create_link_handler, update_link_handler, delete_link_handler, move_link_handler,
  track_link, track_id,
}
use link_nest.Http.Accounts.{
  register, login, with_session, registered, logged_in, end_by_cookie, end_session,
}
use link_nest.Http.Profiles.{update_profile_handler}
use link_nest.Http.Routes.{Route}
use link_nest.Http.Routes.Permitted.{
  creates, updates, deletes, moves, saves, counts, registers, starts, enters, leaves,
}
use link_nest.Http.Routes.Ending.{At, Ends, form-Ends, named-Ends}

module _ (s : Server) (r : Request) (now : ℕ) (random : Result Text) (w : World) where
  module _ (u : User) (h : SignedIn s r w u) (v : World) where
    pub create_link_handler-Ends :
        At s r now random w Route.create_route [] v
        → Ends s r now random w Route.create_route (create_link_handler s r u v).1
    unfolding create_link_handler answered run_op
    create_link_handler-Ends runs =
        form-Ends s r now random w _ v _ runs (λ e. to (called _ (creates u h e) runs))

    pub update_link_handler-Ends :
        (path : Text)
        → At s r now random w (Route.update_route path) [] v
        → Ends s r now random w (Route.update_route path) (update_link_handler s r u v path).1
    unfolding update_link_handler answered run_op
    update_link_handler-Ends path runs = named-Ends s r now random w _ v path _ runs (λ id n.
        form-Ends s r now random w _ v _ runs (λ e. to (called _ (updates u path id h e n) runs)))

    pub delete_link_handler-Ends :
        (path : Text)
        → At s r now random w (Route.delete_route path) [] v
        → Ends s r now random w (Route.delete_route path) (delete_link_handler s r u v path).1
    unfolding delete_link_handler answered run_op
    delete_link_handler-Ends path runs =
        named-Ends s r now random w _ v path _ runs
          (λ id n. to (called _ (deletes u path id h n) runs))

    pub move_link_handler-Ends :
        (path : Text)
        → At s r now random w (Route.move_route path) [] v
        → Ends s r now random w (Route.move_route path) (move_link_handler s r u v path).1
    unfolding move_link_handler answered run_op
    move_link_handler-Ends path runs =
        named-Ends s r now random w _ v path _ runs
          (λ id n. to (called _ (moves u path id h n) runs))

    pub update_profile_handler-Ends :
        At s r now random w Route.profile_route [] v
        → Ends s r now random w Route.profile_route (update_profile_handler s r u v).1
    unfolding update_profile_handler run_op
    update_profile_handler-Ends runs =
        form-Ends s r now random w _ v _ runs (λ e. to (called _ (saves u h e) runs))

  with_session-Ends :
      (route : Route) (problem : Text) (x : Result Text × World)
      → Ends s r now random w route x.1
      → Ends s r now random w route (with_session s r now problem x).1
  with_session-Ends route problem (ok id, v) runs = runs
  with_session-Ends route problem (err e, v) runs =
      RunsTo-read (render_error s r 500 problem) (render_error-ReadOnly s r 500 problem) runs

  registered-Ends :
      (x : Result User × World)
      → create_user s.platform s.generate
          (r.form (lit "email"))
          (r.form (lit "password"))
          (r.form (lit "username"))
          (r.form (lit "first_name"))
          (r.form (lit "last_name"))
          w
        ≡ x
      → At s r now random w Route.register_route
          (sign_up s.generate
              (r.form (lit "email"))
              (r.form (lit "password"))
              (r.form (lit "username"))
              (r.form (lit "first_name"))
              (r.form (lit "last_name"))
            ∷ [])
          x.1
      → Ends s r now random w Route.register_route (registered s r now random x).1
  unfolding run_op
  registered-Ends (ok u, v) e runs = with_session-Ends _ _ _ (to (called _ (starts u v e) runs))
  registered-Ends (err d, v) e runs = RunsTo-read _ (render_page-ReadOnly s r _ _) (to runs)

  pub register-Ends : Ends s r now random w Route.register_route (register s r now random w).1
  unfolding register run_op
  register-Ends =
      form-Ends s r now random w _ w _ done
        (λ e. registered-Ends _ refl (called _ (registers e) done))

  logged_in-Ends :
      (x : Result User × World)
      → authenticate s.platform (r.form (lit "email")) (r.form (lit "password")) w ≡ x
      → At s r now random w Route.login_route [] x.1
      → Ends s r now random w Route.login_route (logged_in s r now random x).1
  unfolding run_op
  logged_in-Ends (ok u, v) e runs = with_session-Ends _ _ _ (to (called _ (enters u v e) runs))
  logged_in-Ends (err d, v) e runs = RunsTo-read _ (render_page-ReadOnly s r _ _) (to runs)

  pub login-Ends : Ends s r now random w Route.login_route (login s r now random w).1
  unfolding login
  login-Ends =
      form-Ends s r now random w _ w _ done
        (λ e. logged_in-Ends _ refl (Runs-read _ (authenticate-ReadOnly s.platform _ _) done))

  pub end_by_cookie-Ends :
      (o : Option Text)
      → find_cookie cookie_name r.cookies ≡ o
      → Ends s r now random w Route.logout_route (end_by_cookie s r o w)
  end_by_cookie-Ends none e = to done
  end_by_cookie-Ends (some value) e = go (verify s.platform value s.cfg.session_secret) refl
    where
      go :
          (x : Text × Bool)
          → verify s.platform value s.cfg.session_secret ≡ x
          → Ends s r now random w Route.logout_route (end_session s r x w)
      go (id, true) valid =
          let (_, signed) = (verify_iff s.platform value s.cfg.session_secret id).0 valid in
          unfold run_op in to (called _ (leaves id (e ∙ ap (λ y. some y) signed)) done)
      go (id, false) valid = to done

  found_public :
      (id : ℤ) (link : Link) (v : World)
      → link_for_tracking id w ≡ (ok link, v)
      → find_public id w.tables.links ≡ ok link
  unfolding link_for_tracking
  found_public id link v found =
      let (began, e) = bind_inv call (λ _ x. (find_public id x.tables.links, x)) w found in
      ap (λ t. find_public id t.links) (sym (Passed-call-tables began))
      ∙ ap (λ (x : Result Link × World). x.0) e

  track_link-Ends :
      (path : Text) (id : ℤ) (m : Registry) (x : Result Link × World)
      → link_id path ≡ some id
      → link_for_tracking id w ≡ x
      → At s r now random w (Route.track_route path) [] x.1
      → Ends s r now random w (Route.track_route path) (track_link s.platform r now x m).2
  unfolding run_op
  track_link-Ends path id m (ok link, v) n e runs =
      to (called _ (counts path id link n (found_public id link v e)) runs)
  track_link-Ends path id m (err d, v) n e runs = to runs

  pub track_id-Ends :
      (path : Text) (m : Registry) (o : Option ℤ)
      → link_id path ≡ o
      → Ends s r now random w (Route.track_route path) (track_id s.platform r now o m w).2
  track_id-Ends path m none n = to done
  track_id-Ends path m (some id) n =
      track_link-Ends path id m (link_for_tracking id w) n refl
        (Runs-read _ (link_for_tracking-ReadOnly id) done)
