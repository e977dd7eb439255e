-- ===== src/Http/Profiles.antt =====
-- The other pages of http/server.go, and its API.
pub mod Public
pub mod Paging
pub mod Follow
mod Tests
use link_nest.Base.{
  ℕ, pos, Bool, true, false, ◌||◌, Option, none, some, List, [], ◌∷◌, ◌++◌, if◌then◌else◌,
}
use link_nest.Text.{Text, lit, equals, contains}
use link_nest.Text.Decimal.{parse_int, value_of}
use link_nest.Models.{User, Link, ClickEvent, Dashboard, Result, ok, err}
use link_nest.Store.World.{World}
use link_nest.Store.Users.{user_by_slug, update_profile}
use link_nest.Store.Reads.{links_for_user, api_history}
use link_nest.Store.Board.{dashboard, explain_indexes}
use link_nest.Http.{Request, reserved_slug, next_after}
use link_nest.Http.Pages.{
  home_page, board, profile, events_json, status_json, Server, Response, redirect, plain_error,
  render_page, render_error, not_found, bad_form, write_json,
}
use link_nest.Http.Replies.{flash_result}

unfoldable pub up : Response
up = record { status = 200; location = none; cookies = []; content_type = []; body = lit "ok" }

module _ (s : Server) (r : Request) where
  unfoldable pub home : World → Response × World
  home w =
      if equals r.path (lit "/")
      then render_page s r (lit "home.html") home_page w
      else not_found s r w

  abbrev pub boarded : Result Dashboard × World → Response × World
  boarded (ok d, w) = render_page s r (lit "dashboard.html") (board d) w
  boarded (err e, w) =
      render_error s r 500 (lit "We couldn't load your dashboard. Please try again.") w

  unfoldable pub dashboard_page : User → World → Response × World
  dashboard_page u w = boarded (dashboard s.platform u w)

  abbrev profile_saved : Result (Unit {0}) × World → Response × World
  profile_saved (result, w) = (
    redirect (lit "/dashboard") (
        flash_result result (lit "Profile saved.")
          (lit "We couldn't save your profile. Please try again.")
        ∷ []),
    w,
  )

  unfoldable pub update_profile_handler : User → World → Response × World
  update_profile_handler u w =
      if r.parses
      then profile_saved (
          update_profile s.platform u.id (r.form (lit "first_name")) (r.form (lit "last_name"))
            (r.form (lit "bio")) w)
      else bad_form s r w

  abbrev pub with_links : User → Result (List Link) × World → Response × World
  with_links u (ok links, w) = render_page s r (lit "profile.html") (profile u links) w
  with_links u (err e, w) =
      render_error s r 500 (lit "We couldn't load this profile. Please try again.") w

  abbrev pub with_owner : Result User × World → Response × World
  with_owner (ok u, w) = with_links u (links_for_user u.id true (pos 100) (pos 0) w)
  with_owner (err e, w) = not_found s r w

  -- `slug` is the path's only segment.
  unfoldable pub public_profile : Text → World → Response × World
  public_profile slug w =
      if contains slug (lit ".") || reserved_slug slug
      then not_found s r w
      else with_owner (user_by_slug s.platform slug w)

  abbrev pub listed : Result (List ClickEvent) × World → Response × World
  listed (ok es, w) = (write_json s r (events_json es (next_after es)), w)
  listed (err e, w) = (plain_error 500 (lit "history error") [], w)

  unfoldable pub api_events : User → World → Response × World
  api_events u w = listed (
      api_history u.id (value_of (parse_int (r.query (lit "limit"))))
        (value_of (parse_int (r.query (lit "after")))) w)

  abbrev pub described : Result Text × World → Response × World
  described (ok summary, w) = (write_json s r (status_json summary), w)
  described (err e, w) = (plain_error 500 (lit "status error") [], w)

  unfoldable pub api_status : World → Response × World
  api_status w = described (explain_indexes s.indexes w)
