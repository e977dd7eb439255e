-- ===== src/Http/Accounts.antt =====
-- Signing up, in and out, in http/server.go. One time `now` stands for all clock readings of a request,
-- `random` for the outcome of its random source.
pub mod Lasting
pub mod Leaving
mod Tests
use link_nest.Base.{ℕ, Bool, true, false, Option, none, some, List, [], ◌∷◌, ◌++◌, if◌then◌else◌}
use link_nest.Text.{Text, lit}
use link_nest.Models.{User, Error, Result, ok, err}
use link_nest.Web.{Cookie, find_cookie}
use link_nest.Auth.Session.{cookie_name, verify, session_cookie, cleared_session_cookie}
use link_nest.Auth.Flash.{flash_cookie}
use link_nest.Store.World.{World}
use link_nest.Store.Users.{create_user, authenticate, create_session, delete_session}
use link_nest.Http.{Request, client_ip}
use link_nest.Http.Pages.{
  Content, empty_form, register_again, login_again, Server, Response, redirect, render_page,
  render_error, bad_form, current_user,
}
use link_nest.Http.Replies.{user_message}

module _ (s : Server) (r : Request) where
  unfoldable pub register_form : World → Response × World
  register_form w = render_page s r (lit "register.html") empty_form w

  unfoldable pub login_form : World → Response × World
  login_form w = render_page s r (lit "login.html") empty_form w

  -- The end of `register` and `login`; `problem` is the message if there is no session.
  abbrev pub with_session : ℕ → Text → Result Text × World → Response × World
  with_session now problem (ok id, w) =
      (redirect (lit "/dashboard") (session_cookie s.platform id s.cfg.session_secret now ∷ []), w)
  with_session now problem (err e, w) = render_error s r 500 problem w

  abbrev pub open_session : ℕ → Result Text → Text → User → World → Response × World
  open_session now random problem u w =
      with_session now problem
        (create_session s.platform random now u.id (client_ip r) (r.header (lit "User-Agent")) w)

  abbrev pub registered : ℕ → Result Text → Result User × World → Response × World
  registered now random (ok u, w) =
      open_session now random
        (lit "Your account was created but we couldn't sign you in. Try logging in.") u w
  registered now random (err e, w) =
      render_page s r (lit "register.html")
        (register_again
          (user_message e (lit "We couldn't create your account just now. Please try again."))
          (r.form (lit "username")) (r.form (lit "first_name")) (r.form (lit "last_name"))
          (r.form (lit "email")))
        w

  unfoldable pub register : ℕ → Result Text → World → Response × World
  register now random w =
      if r.parses
      then registered now random (
          create_user s.platform s.generate (r.form (lit "email")) (r.form (lit "password"))
            (r.form (lit "username")) (r.form (lit "first_name")) (r.form (lit "last_name")) w)
      else bad_form s r w

  abbrev pub logged_in : ℕ → Result Text → Result User × World → Response × World
  logged_in now random (ok u, w) =
      open_session now random (lit "We couldn't sign you in just now. Please try again.") u w
  logged_in now random (err e, w) =
      render_page s r (lit "login.html")
        (login_again (lit "Try another email or password.") (r.form (lit "email"))) w

  unfoldable pub login : ℕ → Result Text → World → Response × World
  login now random w =
      if r.parses
      then logged_in now random
          (authenticate s.platform (r.form (lit "email")) (r.form (lit "password")) w)
      else bad_form s r w

  abbrev pub end_session : Text × Bool → World → World
  end_session (id, true) w = (delete_session s.platform id w).1
  end_session (id, false) w = w

  abbrev pub end_by_cookie : Option Text → World → World
  end_by_cookie none w = w
  end_by_cookie (some value) w = end_session (verify s.platform value s.cfg.session_secret) w

  unfoldable pub logout : World → Response × World
  logout w = (
    redirect (lit "/")
        (cleared_session_cookie ∷ flash_cookie (lit "notice") (lit "You're signed out.") ∷ []),
    end_by_cookie (find_cookie cookie_name r.cookies) w,
  )

  abbrev pub sign_in_first : Response
  sign_in_first =
      redirect (lit "/login") (flash_cookie (lit "alert") (lit "Please sign in to continue.") ∷ [])

  abbrev pub gated : (User → World → Response × World) → (User × Bool) × World → Response × World
  gated next ((u, true), w) = next u w
  gated next ((u, false), w) = (sign_in_first, w)

  unfoldable pub require_auth : (User → World → Response × World) → World → Response × World
  require_auth next w = gated next (current_user s r w)
