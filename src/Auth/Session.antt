-- ===== src/Auth/Session.antt =====
-- Passwords and the signed session cookie of auth/auth.go.
pub mod Signing
use link_nest.Base.{
  ℕ, ◌+◌, ◌*◌, Bool, true, false, Option, none, some, List, [], ◌∷◌, ◌++◌, ltb, if◌then◌else◌,
  length,
}
use link_nest.Text.{Text, lit, equals, cut}
use link_nest.Text.Base64.{encode}
use link_nest.Platform.{Platform}
use link_nest.Models.{Error, user, driver, broken, err_password_too_short, Result, ok, err}
use link_nest.Web.{Cookie, unset, delete_now}

abbrev pub cookie_name : Text
cookie_name = lit "linknest_session"

-- The outcome of `bcrypt.GenerateFromPassword` at the default cost, whose salt is random: the hash,
-- or an error number. It is asked for only if the password is long enough.
unfoldable pub hash_password : (Text → Result Text) → Text → Result Text
hash_password generate password =
    if ltb (length password) 8 then err (user err_password_too_short) else generate password

unfoldable pub check_password : Platform → Text → Text → Bool
check_password p hash password = p.password_matches hash password

-- The 32 bytes come from the system's random source, which may fail.
unfoldable pub new_session_id : Result Text → Result Text
new_session_id (ok body) = ok (encode body)
new_session_id (err e) = err e

module _ (p : Platform) where
  unfoldable pub sign : Text → Text → Text
  sign value secret = let sig = encode (p.hmac secret value) in value ++ b'.' ∷ sig

  -- The text behind the first dot of `expected`, empty if there is none.
  abbrev signature_of : Text → Text
  signature_of expected = elim (cut b'.' expected) [ none ↦ [] | some (_, sig) ↦ sig ]

  -- `hmac.Equal` compares byte by byte.
  unfoldable pub verify : Text → Text → Text × Bool
  unfolding sign
  verify signed secret = elim (cut b'.' signed) [
    | none ↦ ([], false)
    | some (value, sig) ↦ (value, equals sig (signature_of (sign value secret)))
  ]

  -- The cookie lasts thirty days from `now`.
  unfoldable pub session_cookie : Text → Text → ℕ → Cookie
  unfolding sign
  session_cookie session_id secret now = record {
    name = cookie_name;
    value = sign session_id secret;
    path = lit "/";
    http_only = true;
    same_site_lax = true;
    max_age = unset;
    expires = some (now + 30 * 24 * 3600);
  }

unfoldable pub cleared_session_cookie : Cookie
cleared_session_cookie = record {
  name = cookie_name;
  value = [];
  path = lit "/";
  http_only = true;
  same_site_lax = true;
  max_age = delete_now;
  expires = none;
}
