-- ===== src/Http/Pages.antt =====
-- The end of a request in http/server.go: pages, error pages, redirects and JSON.
pub mod Signed
pub mod Reading
use link_nest.Base.{ℕ, Bool, true, false, Option, none, some, List, [], ◌∷◌, ◌++◌, if◌then◌else◌}
use link_nest.Text.{Text, lit}
use link_nest.Platform.{Platform}
use link_nest.Models.{User, Link, ClickEvent, Dashboard, Result, ok, err}
use link_nest.Config.{Config}
use link_nest.Web.{Cookie, find_cookie}
use link_nest.Auth.Session.{cookie_name, verify}
use link_nest.Auth.Flash.{Flash, take_flash}
use link_nest.Store.World.{World}
use link_nest.Store.Users.{user_by_session}
use link_nest.Http.{Request, site_url}

-- The data of each template.
pub data Content : Type 0 where
  home_page empty_form : Content
  -- the error, the username, the names and the email that were typed
  register_again : Text → Text → Text → Text → Text → Content
  -- the error and the email
  login_again : Text → Text → Content
  board : Dashboard → Content
  profile : User → List Link → Content
  -- the status, its title and the message
  problem : ℕ → Text → Text → Content

pub record Page : Type 0 where
  pub current_user : User
  pub flash : Option Flash
  pub site_url : Text
  pub content : Content

-- The bodies that `writeJSON` is given.
pub data Json : Type 0 where
  events_json : List ClickEvent → ℕ → Json
  status_json : Text → Json

-- The server: its configuration, and the libraries that it hands its data to.
pub record Server : Type 0 where
  pub platform : Platform
  pub cfg : Config
  -- `ExecuteTemplate` of a page by its name; `none` is an error
  pub execute : Text → Page → Option Text
  -- `json.NewEncoder(w).Encode`
  pub encode : Json → Text
  -- `http.StatusText`
  pub status_text : ℕ → Text
  -- `bcrypt.GenerateFromPassword`
  pub generate : Text → Result Text
  -- the number of indexes that the database's information schema yields
  pub indexes : ℕ

-- The body that `http.Redirect` writes is left out.
pub record Response : Type 0 where
  pub status : ℕ
  pub location : Option Text
  pub cookies : List Cookie
  pub content_type : Text
  pub body : Text

abbrev pub redirect : Text → List Cookie → Response
redirect to cookies = record {
  status = 303;
  location = some to;
  cookies = cookies;
  content_type = [];
  body = [];
}

-- `http.Error`, after some cookies were set.
abbrev pub plain_error : ℕ → Text → List Cookie → Response
plain_error status message cookies = record {
  status = status;
  location = none;
  cookies = cookies;
  content_type = lit "text/plain; charset=utf-8";
  body = message ++ 10 ∷ [];
}

-- `models.User{}`.
abbrev pub no_user : User
no_user = record {
  id = 0;
  email = [];
  username = [];
  slug = [];
  first_name = [];
  last_name = [];
  bio = [];
  profile_color = [];
}

-- `return user, err == nil`. A failed query leaves the user empty.
abbrev pub looked_up : Result User × World → (User × Bool) × World
looked_up (ok u, w) = ((u, true), w)
looked_up (err e, w) = ((no_user, false), w)

module _ (s : Server) (r : Request) where
  abbrev pub by_verified : Text × Bool → World → (User × Bool) × World
  by_verified (id, true) w = looked_up (user_by_session s.platform id w)
  by_verified (id, false) w = ((no_user, false), w)

  abbrev pub by_cookie : Option Text → World → (User × Bool) × World
  by_cookie none w = ((no_user, false), w)
  by_cookie (some value) w = by_verified (verify s.platform value s.cfg.session_secret) w

  unfoldable pub current_user : World → (User × Bool) × World
  current_user w = by_cookie (find_cookie cookie_name r.cookies) w

  -- The response, once the template has been executed.
  abbrev pub written : ℕ → List Cookie → Option Text → Response
  written status cookies none = plain_error 500 (lit "Something went wrong on our end.") cookies
  written status cookies (some html) = record {
    status = status;
    location = none;
    cookies = cookies;
    content_type = lit "text/html; charset=utf-8";
    body = html;
  }

  unfoldable pub render_status : ℕ → Text → Content → World → Response × World
  unfolding current_user
  render_status status name content w =
      let (signed, w') = current_user w in
      let (flash, cookies) = take_flash r.cookies in
      let page : Page = record {
        current_user = signed.0;
        flash = flash;
        site_url = site_url r;
        content = content;
      } in
      (written status cookies (s.execute name page), w')

  unfoldable pub render_page : Text → Content → World → Response × World
  unfolding render_status
  render_page name content w = render_status 200 name content w

  unfoldable pub render_error : ℕ → Text → World → Response × World
  unfolding render_status
  render_error status message w =
      render_status status (lit "error.html") (problem status (s.status_text status) message) w

  unfoldable pub not_found : World → Response × World
  unfolding render_error
  not_found w =
      render_error 404
        (lit
          "We couldn't find that page. The link may have changed or the profile may no longer exist.")
        w

  -- The answer to a form that does not parse.
  abbrev pub bad_form : World → Response × World
  bad_form w = render_error 400 (lit "We couldn't read that form. Please try again.") w

  abbrev pub write_json : Json → Response
  write_json value = record {
    status = 200;
    location = none;
    cookies = [];
    content_type = lit "application/json";
    body = s.encode value;
  }
