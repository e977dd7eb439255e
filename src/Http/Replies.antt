-- ===== src/Http/Replies.antt =====
-- What the handlers of http/server.go answer: messages, redirects and status codes.
pub mod Shown
pub mod Tracking
use link_nest.Base.{ℕ, ℤ, Bool, true, false, Option, none, some, List, [], ◌∷◌, ◌++◌, if◌then◌else◌}
use link_nest.Text.{Text, lit, equals}
use link_nest.Platform.{Platform}
use link_nest.Models.{
  User, Link, ClickEvent, UserError, err_email_taken, err_username_taken, err_invalid_email,
  err_invalid_username, err_name_required, err_name_too_long, err_bio_too_long, err_title_required,
  err_title_too_long, err_invalid_link_url, err_link_not_found, err_link_at_edge,
  err_password_too_short, DriverError, Error, user, driver, Result, ok, err,
}
use link_nest.Web.{Cookie}
use link_nest.Auth.Flash.{flash_cookie}
use link_nest.Auth.Click.{idempotency_key}
use link_nest.Auth.Slug.{is_empty}
use link_nest.Metrics.{Registry, inc}
use link_nest.Store.World.{World, Db}
use link_nest.Store.Links.{create_link, update_link, delete_link, move_link}
use link_nest.Store.Clicks.{link_for_tracking, ingest_click}
use link_nest.Http.Pages.{Server, Response, redirect, bad_form, not_found}
use link_nest.Http.{Request, safe_url, device_type, browser_name, header_or, client_ip, link_id}

-- The texts of the constants.
unfoldable pub message_of : UserError → Text
message_of err_email_taken = lit "That email is already registered. Try signing in instead."
message_of err_username_taken = lit "That username is already taken. Please pick another."
message_of err_invalid_email = lit "Please enter a valid email address."
message_of err_invalid_username =
    lit
      "Your username must be 3-30 characters, using only letters, numbers, dots, dashes or underscores."
message_of err_name_required = lit "Please enter both a first and last name."
message_of err_name_too_long = lit "First and last names are limited to 60 characters each."
message_of err_bio_too_long = lit "Your bio is limited to 500 characters."
message_of err_title_required = lit "Please give the link a title."
message_of err_title_too_long = lit "Link titles are limited to 120 characters."
message_of err_invalid_link_url =
    lit "That doesn't look like a valid link. Check the address and try again."
message_of err_link_not_found = lit "That link no longer exists."
message_of err_link_at_edge = lit "That link is already at the end of your list."
message_of err_password_too_short = lit "Your password must be at least 8 characters."

-- `userMessage`; the log is left out.
unfoldable pub user_message : Error → Text → Text
unfolding message_of
user_message (user e) fallback = message_of e
user_message (driver e) fallback = fallback

unfoldable pub flash_result : Result (Unit {0}) → Text → Text → Cookie
unfolding user_message
flash_result (ok _) success failure = flash_cookie (lit "notice") success
flash_result (err e) success failure = flash_cookie (lit "alert") (user_message e failure)

-- The end of a handler of the links: the message, and the redirect.
unfoldable pub answered : Result (Unit {0}) × World → Text → Text → Response × World
unfolding flash_result
answered (result, w) success failure =
    (redirect (lit "/dashboard#links") (flash_result result success failure ∷ []), w)

module _ (s : Server) (r : Request) (u : User) (w : World) where
  abbrev is_public : Bool
  is_public = equals (r.form (lit "public")) (lit "on")

  abbrev target_url : Text
  target_url = safe_url s.platform (r.form (lit "url"))

  unfoldable pub create_link_handler : Response × World
  unfolding answered
  create_link_handler =
      let title = r.form (lit "title") in
      if r.parses
      then answered (create_link s.platform u.id title target_url is_public w)
          (lit "Added \"" ++ (title ++ lit "\" to your profile."))
          (lit "We couldn't add that link. Please try again.")
      else bad_form s r w

  abbrev update_form : ℤ → Response × World
  update_form id =
      if r.parses
      then answered (update_link s.platform u.id id (r.form (lit "title")) target_url is_public w)
          (lit "Link updated.") (lit "We couldn't save that link. Please try again.")
      else bad_form s r w

  -- `path` is the part of the path for the id.
  unfoldable pub update_link_handler : Text → Response × World
  unfolding answered
  update_link_handler path = elim (link_id path) [
    | none ↦ not_found s r w
    | some id ↦ update_form id
  ]

  unfoldable pub delete_link_handler : Text → Response × World
  unfolding answered
  delete_link_handler path = elim (link_id path) [
    | none ↦ not_found s r w
    | some id ↦
        answered (delete_link u.id id w) (lit "Link deleted.")
          (lit "We couldn't delete that link. Please try again.")
  ]

  unfoldable pub move_link_handler : Text → Response × World
  unfolding answered
  move_link_handler path = elim (link_id path) [
    | none ↦ not_found s r w
    | some id ↦
        answered (move_link u.id id (equals (r.form (lit "dir")) (lit "up")) w)
          (lit "Order updated.") (lit "We couldn't reorder your links. Please try again.")
  ]

-- The event of a click at the time `now`.
unfoldable pub click_of : Platform → Request → Link → ℕ → ClickEvent
click_of p r link now =
    let key = r.header (lit "Idempotency-Key") in
    let referrer = r.header (lit "Referer") in
    let ua = r.header (lit "User-Agent") in
    record {
      id = 0;
      idempotency_key =
          if is_empty key then idempotency_key p link.id (client_ip r) ua referrer now else key;
      user_id = link.user_id;
      link_id = link.id;
      referrer = referrer;
      user_agent = ua;
      ip_address = client_ip r;
      country_code = header_or r (lit "CF-IPCountry") (lit "US");
      device_type = device_type p ua;
      browser_name = browser_name p ua;
      event_time = now;
    }

-- The status of the response, with the metrics.
unfoldable pub counted : Result Bool → Registry → ℕ × Registry
counted (ok true) m = (202, inc (lit "linknest_click_events_ingested_total") 1 m)
counted (ok false) m = (202, inc (lit "linknest_click_events_deduplicated_total") 1 m)
counted (err e) m = (500, m)

abbrev pub tracked : Result Bool × World → Registry → ℕ × Registry × World
tracked (result, w) m = let (status, m') = counted result m in (status, m', w)

abbrev pub track_link :
    Platform → Request → ℕ → Result Link × World → Registry → ℕ × Registry × World
track_link p r now (err e, w) m = (404, m, w)
track_link p r now (ok link, w) m = tracked (ingest_click p (click_of p r link now) w) m

abbrev pub track_id : Platform → Request → ℕ → Option ℤ → Registry → World → ℕ × Registry × World
track_id p r now none m w = (404, m, w)
track_id p r now (some id) m w = track_link p r now (link_for_tracking id w) m

unfoldable pub track_click : Platform → Request → Text → ℕ → Registry → World → ℕ × Registry × World
track_click p r path now m w = track_id p r now (link_id path) m w
