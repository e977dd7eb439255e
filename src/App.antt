-- ===== src/App.antt =====
-- The template helpers of app/app.go.
use link_nest.Base.{ℕ, ◌+◌, ◌-◌, ◌%◌, none, some, List, [], ◌∷◌, ◌++◌, if◌then◌else◌}
use mathlib.Core.List.{flat_map}
use Prim.Native.Nat.{◌^◌}
use link_nest.Text.{Text, lit, has_prefix}
use link_nest.Text.Utf8.{runes, encode_rune}
use link_nest.Platform.{Platform, ParsedUrl}
use link_nest.Auth.Slug.{is_empty}

abbrev first_of : List ℕ → Text
first_of [] = []
first_of (r ∷ _) = encode_rune r

-- `strings.ToUpper`, by `unicode.ToUpper`.
unfoldable pub to_upper : (ℕ → ℕ) → Text → Text
to_upper upper s = flat_map (λ r. encode_rune (upper r)) (runes s)

unfoldable pub initials : (ℕ → ℕ) → Text → Text → Text
unfolding to_upper
initials upper first last = to_upper upper (first_of (runes first) ++ first_of (runes last))

-- On the two's complements of an int.
unfoldable pub sub : ℕ → ℕ → ℕ
sub a b = (a + 2 ^ 64 - b) % 2 ^ 64

-- `strings.TrimPrefix(s, "www.")`.
abbrev drop_four : Text → Text
drop_four (_ ∷ _ ∷ _ ∷ _ ∷ s) = s
drop_four _ = []

abbrev shown_host : ParsedUrl → Text
shown_host u =
    if is_empty u.host
    then u.opaque
    else if has_prefix u.host (lit "www.")
    then drop_four u.host
    else u.host

unfoldable pub host : Platform → Text → Text
host p raw = elim (p.parse_url raw) [ none ↦ [] | some u ↦ shown_host u ]

-- The names in `PageNames`: `New` parses one template for each of them, and no other.
abbrev pub page_names : List Text
page_names =
    lit "home.html"
    ∷ lit "login.html"
    ∷ lit "register.html"
    ∷ lit "dashboard.html"
    ∷ lit "profile.html"
    ∷ lit "error.html"
    ∷ []
