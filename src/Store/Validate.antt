-- ===== src/Store/Validate.antt =====
-- The checks of store/store.go on what a user typed, before any call of the database. `none` is a
-- nil error.
pub mod Urls
use link_nest.Base.{
  ℕ, Bool, true, false, not, ◌&&◌, ◌||◌, Option, none, some, [], ◌∷◌, leb, ltb, ◌==◌, if◌then◌else◌,
  length,
}
use link_nest.Text.{Text, lit, equals, has_prefix, contains}
use link_nest.Text.Utf8.{rune_count}
use link_nest.Platform.{Platform, ParsedUrl}
use link_nest.Models.{
  UserError, err_email_taken, err_username_taken, err_invalid_email, err_invalid_username,
  err_name_required, err_name_too_long, err_bio_too_long, err_title_required, err_title_too_long,
  err_invalid_link_url, DriverError, mysql, no_rows, broken, Error, user, driver,
}
use link_nest.Auth.Slug.{slug, is_empty}

abbrev pub max_email_len : ℕ
max_email_len = 254

abbrev pub max_name_len : ℕ
max_name_len = 60

abbrev pub max_bio_len : ℕ
max_bio_len = 500

abbrev pub max_title_len : ℕ
max_title_len = 120

abbrev pub max_url_len : ℕ
max_url_len = 2048

abbrev pub mysql_duplicate_entry : ℕ
mysql_duplicate_entry = 1062

-- A letter, a digit, a dot, an underscore or a dash.
abbrev pub is_username_byte : ℕ → Bool
is_username_byte c =
    leb b'a' c && leb c b'z'
    || leb b'A' c && leb c b'Z'
    || leb b'0' c && leb c b'9'
    || c == b'.'
    || c == b'_'
    || c == b'-'

unfoldable pub all_username_bytes : Text → Bool
all_username_bytes [] = true
all_username_bytes (c ∷ s) = is_username_byte c && all_username_bytes s

-- `usernamePattern.MatchString`.
unfoldable pub matches_username : Text → Bool
matches_username s = leb 3 (length s) && leb (length s) 30 && all_username_bytes s

unfoldable pub validate_names : Text → Text → Option UserError
validate_names first last =
    if is_empty first || is_empty last
    then some err_name_required
    else if ltb max_name_len (rune_count first) || ltb max_name_len (rune_count last)
    then some err_name_too_long
    else none

unfoldable pub validate_bio : Text → Option UserError
validate_bio bio = if ltb max_bio_len (rune_count bio) then some err_bio_too_long else none

-- The switch on the scheme of a parsed URL.
unfoldable pub validate_parsed : Option ParsedUrl → Option UserError
validate_parsed none = some err_invalid_link_url
validate_parsed (some u) =
    if equals u.scheme (lit "http") || equals u.scheme (lit "https")
    then (if is_empty u.host then some err_invalid_link_url else none)
    else if equals u.scheme (lit "mailto") || equals u.scheme (lit "tel")
    then (if is_empty u.opaque then some err_invalid_link_url else none)
    else some err_invalid_link_url

module _ (p : Platform) where
  -- The address is bare: `ParseAddress` also accepts a display name around it.
  unfoldable pub is_bare_address : Text → Bool
  is_bare_address email = elim (p.parse_address email) [
    | none ↦ false
    | some (name, address) ↦ is_empty name && equals address email
  ]

  unfoldable pub validate_signup : Text → Text → Text → Text → Option UserError
  unfolding is_bare_address
  validate_signup email username first last =
      if ltb max_email_len (length email)
      then some err_invalid_email
      else if not (is_bare_address email)
      then some err_invalid_email
      else if not (matches_username username) || is_empty (slug p username)
      then some err_invalid_username
      else validate_names first last

  unfoldable pub validate_link : Text → Text → Option UserError
  unfolding validate_parsed
  validate_link title url =
      if is_empty title
      then some err_title_required
      else if ltb max_title_len (rune_count title)
      then some err_title_too_long
      else if is_empty url || ltb max_url_len (length url)
      then some err_invalid_link_url
      else if has_prefix url (lit "//")
      then some err_invalid_link_url
      else if has_prefix url (lit "/")
      then none
      else validate_parsed (p.parse_url url)

-- A duplicate key of `users` becomes the message about the email or the username; the test reads
-- the text of the driver's message.
unfoldable pub signup_conflict : DriverError → Error
signup_conflict no_rows = driver no_rows
signup_conflict (broken n) = driver (broken n)
signup_conflict (mysql number message) =
    if not (number == mysql_duplicate_entry)
    then driver (mysql number message)
    else if contains message (lit "idx_users_email")
    then user err_email_taken
    else if contains message (lit "idx_users_username") || contains message (lit "idx_users_slug")
    then user err_username_taken
    else driver (mysql number message)
