-- ===== src/Platform.antt =====
-- What the program takes from outside its repository: tables and parsers of Go's standard library,
-- cryptography, and the comparison of text columns by the database. Every definition and theorem
-- holds for any such functions, unless it names a law.
pub mod Sample
use link_nest.Base.{ℕ, Bool, Option}
use link_nest.Text.{Text}

-- What `net/url.Parse` returns, as far as the program reads it.
pub record ParsedUrl : Type 0 where
  pub scheme : Text
  pub host : Text
  pub opaque : Text

pub record Platform : Type 0 where
  -- `unicode.ToLower` above ASCII
  pub lower : ℕ → ℕ
  -- `mail.ParseAddress`: the display name and the address
  pub parse_address : Text → Option (Text × Text)
  -- `url.Parse`
  pub parse_url : Text → Option ParsedUrl
  -- HMAC-SHA256 of a message, by a key
  pub hmac : Text → Text → Text
  -- SHA-256
  pub sha256 : Text → Text
  -- `Format(time.RFC3339)` of a time in seconds, in UTC
  pub rfc3339 : ℕ → Text
  -- `bcrypt.CompareHashAndPassword(hash, password) == nil`
  pub password_matches : Text → Text → Bool
  -- the equality of two values of a text column, under the collation of the database
  pub same : Text → Text → Bool
  -- the same of their values under the database's function `lower`
  pub same_lower : Text → Text → Bool
  -- the message of the database's error 1062, about a value and the name of a unique key
  pub duplicate_message : Text → Text → Text
