-- ===== src/Auth/Slug.antt =====
-- `Slug` of auth/auth.go: the public name that a username becomes.
pub mod Shape
pub mod Fixed
use link_nest.Base.{
  ℕ, ◌+◌, Bool, true, false, not, ◌&&◌, ◌||◌, List, [], ◌∷◌, ◌++◌, foldl, leb, ◌==◌, if◌then◌else◌,
}
use link_nest.Text.{Text, drop_while, drop_while_end}
use link_nest.Text.Utf8.{runes, to_lower, trim_space}
use link_nest.Platform.{Platform}

-- A lower-case ASCII letter or a digit.
abbrev pub is_slug_rune : ℕ → Bool
is_slug_rune r = leb b'a' r && leb r b'z' || leb b'0' r && leb r b'9'

abbrev pub is_dash : ℕ → Bool
is_dash c = c == b'-'

abbrev pub is_empty : Text → Bool
is_empty [] = true
is_empty (_ ∷ _) = false

-- One round of the loop, on the builder and `lastDash`.
unfoldable pub slug_step : Text × Bool → ℕ → Text × Bool
slug_step (b, last_dash) r =
    if is_slug_rune r
    then (b ++ r ∷ [], false)
    else if not last_dash && not (is_empty b)
    then (b ++ b'-' ∷ [], true)
    else (b, last_dash)

-- `strings.Trim(s, "-")`.
unfoldable pub trim_dashes : Text → Text
trim_dashes s = drop_while_end is_dash (drop_while is_dash s)

unfoldable pub slug : Platform → Text → Text
unfolding slug_step trim_dashes
slug p input =
    trim_dashes (foldl slug_step ([], false) (runes (to_lower p.lower (trim_space input)))).0
