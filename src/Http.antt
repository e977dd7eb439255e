-- ===== src/Http.antt =====
-- The helpers of http/server.go that read a request.
pub mod Urls
pub mod Pages
pub mod Replies
pub mod Accounts
pub mod Profiles
pub mod Routes
mod Tests
use link_nest.Base.{
  ℕ, ℤ, pos, Bool, true, false, ◌||◌, Option, none, some, List, [], ◌∷◌, ◌++◌, ◌==◌, if◌then◌else◌,
}
use link_nest.Text.{Text, lit, equals, has_prefix, contains, split_head}
use link_nest.Text.Utf8.{trim_space, to_lower}
use link_nest.Text.Decimal.{ParsedInt, parsed, syntax, range, parse_int}
use link_nest.Platform.{Platform}
use link_nest.Auth.Slug.{is_empty}
use link_nest.Web.{Jar}
use link_nest.Models.{ClickEvent}

-- A request, as far as the handlers read it. A header, a form field or a query parameter that is
-- missing is empty.
pub record Request : Type 0 where
  -- `r.URL.Path`
  pub path : Text
  pub header : Text → Text
  pub cookies : Jar
  -- whether `r.ParseForm` succeeds
  pub parses : Bool
  -- `r.FormValue`, which yields what it can read of a form that does not parse
  pub form : Text → Text
  -- `r.URL.Query().Get`
  pub query : Text → Text
  pub host : Text
  pub is_tls : Bool
  pub remote_addr : Text
  -- `net.SplitHostPort(r.RemoteAddr)`: the host
  pub remote_host : Option Text

module _ (p : Platform) where
  unfoldable pub safe_url : Text → Text
  safe_url input =
      let value = trim_space input in
      let lower = to_lower p.lower value in
      if has_prefix lower (lit "http://")
        || has_prefix lower (lit "https://")
        || has_prefix lower (lit "mailto:")
        || has_prefix lower (lit "tel:")
        || has_prefix value (lit "/")
      then value
      else lit "https://" ++ value

  unfoldable pub device_type : Text → Text
  device_type ua =
      let lower = to_lower p.lower ua in
      if contains lower (lit "mobile")
        || contains lower (lit "android")
        || contains lower (lit "iphone")
      then lit "mobile"
      else if contains lower (lit "tablet") || contains lower (lit "ipad")
      then lit "tablet"
      else lit "desktop"

  unfoldable pub browser_name : Text → Text
  browser_name ua =
      let lower = to_lower p.lower ua in
      if contains lower (lit "edg")
      then lit "Edge"
      else if contains lower (lit "chrome")
      then lit "Chrome"
      else if contains lower (lit "firefox")
      then lit "Firefox"
      else if contains lower (lit "safari")
      then lit "Safari"
      else lit "Other"

unfoldable pub reserved_slug : Text → Bool
reserved_slug slug =
    equals slug (lit "login")
    || equals slug (lit "logout")
    || equals slug (lit "register")
    || equals slug (lit "dashboard")
    || equals slug (lit "links")
    || equals slug (lit "api")
    || equals slug (lit "metrics")
    || equals slug (lit "static")
    || equals slug (lit "up")

unfoldable pub header_or : Request → Text → Text → Text
header_or r key fallback = if is_empty (r.header key) then fallback else r.header key

unfoldable pub client_ip : Request → Text
client_ip r =
    let forwarded = r.header (lit "X-Forwarded-For") in
    if is_empty forwarded
    then elim (r.remote_host) [ none ↦ r.remote_addr | some host ↦ host ]
    else trim_space (split_head b',' forwarded)

unfoldable pub site_url : Request → Text
site_url r =
    let forwarded = r.header (lit "X-Forwarded-Proto") in
    let scheme =
      if is_empty forwarded
      then (if r.is_tls then lit "https" else lit "http")
      else trim_space (split_head b',' forwarded) in
    scheme ++ (lit "://" ++ r.host)

-- `linkID`: the number in the path; otherwise the response is "not found".
unfoldable pub link_id : Text → Option ℤ
link_id s = elim (parse_int s) [ parsed n ↦ some n | syntax ↦ none | range n ↦ none ]

-- The identifier of the last event of a page.
unfoldable pub next_after : List ClickEvent → ℕ
next_after [] = 0
next_after (e ∷ []) = e.id
next_after (e ∷ f ∷ es) = next_after (f ∷ es)
