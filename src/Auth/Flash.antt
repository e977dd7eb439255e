-- ===== src/Auth/Flash.antt =====
-- The one-shot message that a cookie carries across a redirect (auth/auth.go).
pub mod Once
use link_nest.Base.{
  ℕ, Bool, true, not, ◌&&◌, Option, none, some, List, [], ◌∷◌, ◌++◌, if◌then◌else◌,
}
use link_nest.Text.{Text, lit, equals, cut}
use link_nest.Text.Base64.{encode, decode}
use link_nest.Web.{Cookie, Jar, seconds, delete_now, find_cookie}

abbrev pub flash_cookie_name : Text
flash_cookie_name = lit "linknest_flash"

pub record Flash : Type 0 where
  pub kind : Text
  pub message : Text

unfoldable pub flash_cookie : Text → Text → Cookie
flash_cookie kind message = record {
  name = flash_cookie_name;
  value = encode (kind ++ b'|' ∷ message);
  path = lit "/";
  http_only = true;
  same_site_lax = true;
  max_age = seconds 60;
  expires = none;
}

unfoldable pub cleared_flash_cookie : Cookie
cleared_flash_cookie = record {
  name = flash_cookie_name;
  value = [];
  path = lit "/";
  http_only = true;
  same_site_lax = true;
  max_age = delete_now;
  expires = none;
}

-- What follows the decoding: the kind is one of two.
read_flash : Option (Text × Text) → Option Flash
read_flash none = none
read_flash (some (kind, message)) =
    if not (equals kind (lit "notice")) && not (equals kind (lit "alert"))
    then none
    else some (record { kind = kind; message = message })

-- `TakeFlash`: the message, and the cookies that the response sets.
unfoldable pub take_flash : Jar → Option Flash × List Cookie
unfolding read_flash cleared_flash_cookie
take_flash jar = elim (find_cookie flash_cookie_name jar) [
  | none ↦ (none, [])
  | some value ↦ (
    elim (decode value) [ none ↦ none | some raw ↦ read_flash (cut b'|' raw) ],
    cleared_flash_cookie ∷ [],
  )
]
