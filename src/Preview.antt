-- ===== src/Preview.antt =====
-- The tool of preview/main.go, which shows the templates with sample data. Its file server and the
-- execution of templates are parameters.
pub mod Markup
use link_nest.Base.{
  ℕ, Bool, true, false, ◌||◌, Option, none, some, List, [], ◌∷◌, ◌++◌, map, if◌then◌else◌,
}
use link_nest.Text.{Text, lit, equals}
use link_nest.Models.{User, Link, DailyStat, Dashboard}
use link_nest.Auth.Flash.{Flash}
use link_nest.Auth.Slug.{is_empty}
use link_nest.App.{page_names}
use link_nest.Http.Pages.{
  Content, home_page, empty_form, register_again, board, profile, problem, Page, no_user, Response,
  plain_error,
}
use link_nest.Preview.Markup.{
  frame_head, frame_body, frame_mark, frame_tail, overflow_probe, open_all,
}

abbrev pub ada : User
ada = record {
  id = 1;
  email = [];
  username = lit "ada";
  slug = lit "ada";
  first_name = lit "Ada";
  last_name = lit "Lovelace";
  bio = lit "Mathematician. Writing about analytical engines, computation and the occasional poem.";
  profile_color = lit "#56738c";
}

abbrev sample_link : ℕ → Text → Text → Bool → ℕ → Link
sample_link id title url public click_count = record {
  id = id;
  user_id = 0;
  title = title;
  url = url;
  position = 0;
  public = public;
  icon_color = [];
  click_count = click_count;
}

-- The public links, and the draft.
abbrev public_links : List Link
public_links =
    sample_link 1 (lit "Portfolio") (lit "https://www.example.com/work") true 1284
    ∷ sample_link 2 (lit "Notes on the Analytical Engine") (lit "https://notes.example.org/engine")
        true 431
    ∷ []

abbrev draft : Link
draft = sample_link 3 (lit "Draft (private)") (lit "https://example.com/draft") false 3

abbrev sample_day : ℕ → ℕ → ℕ → ℕ → ℕ → DailyStat
sample_day date total_clicks unique_visitors top_link_id top_link_clicks = record {
  date = date;
  total_clicks = total_clicks;
  unique_visitors = unique_visitors;
  top_link_id = top_link_id;
  top_link_clicks = top_link_clicks;
}

-- The days are the first three of September 2026.
abbrev pub sample_dashboard : Dashboard
sample_dashboard = record {
  user = ada;
  links = public_links ++ draft ∷ [];
  total_clicks = 1718;
  unique_visitors = 902;
  top_links = public_links;
  daily =
      sample_day 1788220800 210 120 1 140
      ∷ sample_day 1788307200 265 143 1 171
      ∷ sample_day 1788393600 301 166 2 188
      ∷ [];
}

-- An entry of a map, by its key; `missing` is the zero value.
unfoldable pub entry {ℓ} : {A : Type ℓ} → A → Text → List (Text × A) → A
entry missing key [] = missing
entry missing key ((k, a) ∷ rest) = if equals k key then a else entry missing key rest

-- `data`; `nil` for the first page, and for a page that is not in it.
abbrev pub sample_data : List (Text × Content)
sample_data =
    (lit "home.html", home_page)
    ∷ (lit "login.html", empty_form)
    ∷ (
      lit "register.html",
      register_again (lit "That email is already registered. Try signing in instead.") (lit "ada")
          (lit "Ada") (lit "Lovelace") (lit "ada@example.com"),
    )
    ∷ (lit "dashboard.html", board sample_dashboard)
    ∷ (lit "profile.html", profile ada public_links)
    ∷ (
      lit "error.html",
      problem 404 (lit "Not Found") (
          lit
            "We couldn't find that page. The link may have changed or the profile may no longer exist."),
    )
    ∷ []

-- `signedOut`.
abbrev pub signed_out : List (Text × Bool)
signed_out =
    (lit "login.html", true) ∷ (lit "register.html", true) ∷ (lit "profile.html", true) ∷ []

-- `flash`.
abbrev pub sample_flash : List (Text × Option Flash)
sample_flash =
    (
      lit "dashboard.html",
      some (record { kind = lit "notice"; message = lit "Added \"Portfolio\" to your profile." }),
    )
    ∷ []

-- What executing a template writes, and whether it ends without an error.
abbrev pub Template : Type 0
Template = Page → Text × Bool

-- `pages`; `parse` is `template.New`, `Funcs` and `ParseFS` of the page of a name.
unfoldable pub parsed_pages : (Text → Template) → List (Text × Option Template)
parsed_pages parse = map {A = Text} (λ name. (name, some (parse name))) page_names

-- `r.URL.Query()`.
pub record Query : Type 0 where
  pub get : Text → Text
  pub has : Text → Bool
  pub encode : Text

abbrev html : Text → Response
html body = record {
  status = 200;
  location = none;
  cookies = [];
  content_type = lit "text/html; charset=utf-8";
  body = body;
}

-- The handler of `GET /frame`.
unfoldable pub frame : Query → Response
unfolding frame_head frame_body frame_mark frame_tail
frame q =
    let fragment = q.get (lit "frag") in
    let frag = if is_empty fragment then [] else lit "#" ++ fragment in
    html (
      frame_head
      ++ q.get (lit "w")
      ++ frame_body
      ++ q.get (lit "p")
      ++ frame_mark
      ++ q.encode
      ++ frag
      ++ frame_tail)

-- What a page gets to show.
unfoldable pub sample_page : Query → Text → Page
unfolding entry
sample_page q name = record {
  current_user = if entry false name signed_out || q.has (lit "anon") then no_user else ada;
  flash = entry none name sample_flash;
  site_url = lit "http://localhost:8099";
  content = entry home_page name sample_data;
}

-- What is written behind a page.
unfoldable pub extras : Query → Text
unfolding overflow_probe open_all
extras q =
    let n = q.get (lit "scroll") in
    (if q.has (lit "probe") then overflow_probe else [])
    ++ (if is_empty n then [] else lit "<style>body{margin-top:-" ++ n ++ lit "px}</style>")
    ++ (if q.has (lit "open") then open_all else [])

abbrev pub shown : Query → Text → Option Template → Response
shown q name none = plain_error 404 (lit "404 page not found") []
shown q name (some t) =
    let (written, ok) = t (sample_page q name) in html (if ok then written ++ extras q else written)

-- The handler of `GET /{page}`.
unfoldable pub show_page : (Text → Template) → Query → Text → Response
unfolding entry parsed_pages
show_page parse q page =
    let name = page ++ lit ".html" in shown q name (entry none name (parsed_pages parse))
