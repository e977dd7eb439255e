-- ===== src/Http/Pages/Reading.antt =====
-- Finding out who is signed in, and showing pages, changes nothing.
use link_nest.Base.{ℕ, ◌≡◌, refl, ap, ◌∙◌, Bool, true, false, Option, none, some}
use link_nest.Text.{Text}
use link_nest.Models.{User, Result, ok, err}
use link_nest.Web.{find_cookie}
use link_nest.Auth.Session.{cookie_name, verify}
use link_nest.Store.World.{World}
use link_nest.Store.World.Robust.{quiet}
use link_nest.Store.World.ReadOnly.{ReadOnly}
use link_nest.Store.Users.{user_by_session}
use link_nest.Store.Reads.Quiet.{user_by_session-ReadOnly}
use link_nest.Http.{Request}
use link_nest.Http.Pages.{
  Content, Server, looked_up, by_verified, by_cookie, current_user, render_status, render_page,
  render_error, not_found,
}

looked_up-World : (x : Result User × World) → (looked_up x).1 ≡ x.1
looked_up-World (ok u, w) = refl
looked_up-World (err e, w) = refl

module _ (s : Server) (r : Request) where
  by_verified-ReadOnly : (x : Text × Bool) → ReadOnly (by_verified s r x)
  by_verified-ReadOnly (id, true) = record {
    same = λ w.
        ap quiet (looked_up-World (user_by_session s.platform id w))
        ∙ (user_by_session-ReadOnly s.platform id).same w;
  }
  by_verified-ReadOnly (id, false) = record { same = λ w. refl }

  by_cookie-ReadOnly : (o : Option Text) → ReadOnly (by_cookie s r o)
  by_cookie-ReadOnly none = record { same = λ w. refl }
  by_cookie-ReadOnly (some value) =
      by_verified-ReadOnly (verify s.platform value s.cfg.session_secret)

  pub current_user-ReadOnly : ReadOnly (current_user s r)
  unfolding current_user
  current_user-ReadOnly = by_cookie-ReadOnly (find_cookie cookie_name r.cookies)

  pub render_status-ReadOnly :
      (status : ℕ) (name : Text) (content : Content)
      → ReadOnly (render_status s r status name content)
  unfolding render_status
  render_status-ReadOnly status name content = record { same = λ w. current_user-ReadOnly.same w }

  pub render_page-ReadOnly :
      (name : Text) (content : Content) → ReadOnly (render_page s r name content)
  unfolding render_page
  render_page-ReadOnly name content = render_status-ReadOnly _ name content

  pub render_error-ReadOnly :
      (status : ℕ) (message : Text) → ReadOnly (render_error s r status message)
  unfolding render_error
  render_error-ReadOnly status message = render_status-ReadOnly _ _ _

  pub not_found-ReadOnly : ReadOnly (not_found s r)
  unfolding not_found
  not_found-ReadOnly = render_error-ReadOnly _ _
