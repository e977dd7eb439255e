-- ===== src/Store/Validate/Urls.antt =====
-- Which links pass the check, and how a conflict of two accounts is told.
use link_nest.Base.{
  ◌≤◌, ◌≡◌, ◌≢◌, refl, ◌↔◌, ◌⊎◌, true, false, Option, none, some, [], ◌∷◌, ◌++◌, arith,
  if◌then◌else◌, length,
}
use link_nest.Text.{Text, lit, equals, equals_sound, equals_refl, has_prefix, contains}
use link_nest.Text.Utf8.{rune_count}
use link_nest.Platform.{Platform, ParsedUrl}
use link_nest.Models.{UserError, err_email_taken, err_invalid_link_url, user, mysql}
use link_nest.Auth.Slug.{is_empty}
use link_nest.Store.Validate.{
  validate_parsed, validate_link, signup_conflict, mysql_duplicate_entry,
}

equals_iff : (s t : Text) → (equals s t ≡ true) ↔ (s ≡ t)
equals_iff s t = (equals_sound s t, λ e. rw e (equals_refl t))

-- A path from the root of the site, and not the address of another site.
abbrev pub RootRelative : Text → Type 0
RootRelative [] = ⊥
RootRelative (c ∷ []) = c ≡ b'/'
RootRelative (c ∷ d ∷ _) = (c ≡ b'/') × (d ≢ b'/')

-- A parsed URL that leads somewhere.
abbrev pub Absolute : Option ParsedUrl → Type 0
Absolute none = ⊥
Absolute (some u) =
    (((u.scheme ≡ lit "http") ⊎ (u.scheme ≡ lit "https")) × (u.host ≢ []))
    ⊎ (((u.scheme ≡ lit "mailto") ⊎ (u.scheme ≡ lit "tel")) × (u.opaque ≢ []))

abbrev pub NoSlashFirst : Text → Type 0
NoSlashFirst [] = Unit
NoSlashFirst (c ∷ _) = c ≢ b'/'

-- What the check lets through.
pub record Acceptable (p : Platform) (title url : Text) : Type 0 where
  pub titled : title ≢ []
  pub short : rune_count title ≤ 120
  pub given : url ≢ []
  pub fits : length url ≤ 2048
  pub leads : RootRelative url ⊎ (NoSlashFirst url × Absolute (p.parse_url url))

is_empty_iff : (s : Text) → (is_empty s ≡ false) ↔ (s ≢ [])
is_empty_iff [] = ((λ e. cc), λ h. absurd (h refl))
is_empty_iff (c ∷ s) = ((λ e. cc), λ h. refl)

module _ (u : ParsedUrl) where
  validate_parsed_sound : validate_parsed (some u) ≡ none → Absolute (some u)
  unfolding validate_parsed
  validate_parsed_sound e = ground (
    arith,
    equals_iff u.scheme (lit "http"),
    equals_iff u.scheme (lit "https"),
    equals_iff u.scheme (lit "mailto"),
    equals_iff u.scheme (lit "tel"),
    is_empty_iff u.host,
    is_empty_iff u.opaque,
  )

  validate_parsed_complete : Absolute (some u) → validate_parsed (some u) ≡ none
  unfolding validate_parsed
  validate_parsed_complete h = ground (
    arith,
    equals_iff u.scheme (lit "http"),
    equals_iff u.scheme (lit "https"),
    equals_iff u.scheme (lit "mailto"),
    equals_iff u.scheme (lit "tel"),
    is_empty_iff u.host,
    is_empty_iff u.opaque,
  )

validate_parsed_iff : (o : Option ParsedUrl) → (validate_parsed o ≡ none) ↔ Absolute o
validate_parsed_iff none = (unfold validate_parsed in (λ e. cc), λ h. absurd h)
validate_parsed_iff (some u) = (validate_parsed_sound u, validate_parsed_complete u)

-- The tests of the URL's beginning.
abbrev check_start : Platform → Text → Option UserError
check_start p url =
    if has_prefix url (lit "//")
    then some err_invalid_link_url
    else if has_prefix url (lit "/")
    then none
    else validate_parsed (p.parse_url url)

abbrev Leads : Platform → Text → Type 0
Leads p url = RootRelative url ⊎ (NoSlashFirst url × Absolute (p.parse_url url))

module _ (p : Platform) where
  check_start_sound : (url : Text) → check_start p url ≡ none → Leads p url
  unfolding has_prefix
  check_start_sound [] e = ground (arith, validate_parsed_iff (p.parse_url []))
  check_start_sound (c ∷ []) e = ground (arith, validate_parsed_iff (p.parse_url (c ∷ [])))
  check_start_sound (c ∷ d ∷ s) e = ground (arith, validate_parsed_iff (p.parse_url (c ∷ d ∷ s)))

  check_start_complete : (url : Text) → Leads p url → check_start p url ≡ none
  unfolding has_prefix
  check_start_complete [] h = ground (arith, validate_parsed_iff (p.parse_url []))
  check_start_complete (c ∷ []) h = ground (arith, validate_parsed_iff (p.parse_url (c ∷ [])))
  check_start_complete (c ∷ d ∷ s) h = ground (arith, validate_parsed_iff (p.parse_url (c ∷ d ∷ s)))

  module _ (title url : Text) where
    validate_link_sound : validate_link p title url ≡ none → Acceptable p title url
    unfolding validate_link
    validate_link_sound e = record {
      titled = ground (arith, is_empty_iff title);
      short = ground arith;
      given = ground (arith, is_empty_iff url);
      fits = ground arith;
      leads = check_start_sound url (ground arith);
    }

    validate_link_complete : Acceptable p title url → validate_link p title url ≡ none
    unfolding validate_link
    validate_link_complete h =
        let start : check_start p url ≡ none = check_start_complete url h.leads in
        ground (arith, is_empty_iff title, is_empty_iff url)

-- A title and a URL pass the check exactly if the title has 1 to 120 characters, and the URL has 1
-- to 2048 bytes and is a path from the root of the site, or parses with scheme http or https and a
-- host, or with scheme mailto or tel and something behind it. The address of another site without a
-- scheme ("//evil.example") does not pass.
pub validate_link_iff :
    (p : Platform) (title url : Text) → (validate_link p title url ≡ none) ↔ Acceptable p title url
validate_link_iff p title url =
    (validate_link_sound p title url, validate_link_complete p title url)

has_prefix-append : (s q t : Text) → has_prefix s q ≡ true → has_prefix (s ++ t) q ≡ true
unfolding has_prefix
has_prefix-append s [] t h = refl
has_prefix-append [] (c ∷ q) t h = cc
has_prefix-append (a ∷ s) (c ∷ q) t h = ground (arith, has_prefix-append s q t)

contains-append_right : (s q t : Text) → contains s q ≡ true → contains (s ++ t) q ≡ true
unfolding contains has_prefix
contains-append_right [] [] [] h = refl
contains-append_right [] [] (b ∷ t) h = refl
contains-append_right [] (c ∷ q) t h = cc
contains-append_right (a ∷ s) q t h =
    ground (arith, contains-append_right s q t, has_prefix-append (a ∷ s) q t)

contains-append_left : (s q t : Text) → contains t q ≡ true → contains (s ++ t) q ≡ true
unfolding contains
contains-append_left [] q t h = h
contains-append_left (a ∷ s) q t h = ground (arith, contains-append_left s q t)

-- The message of a duplicate key quotes the duplicate value. Whatever key was violated: if the quoted
-- username contains "idx_users_email", the user is told that the email is taken.
pub signup_conflict_misled :
    (before username behind : Text)
    → contains username (lit "idx_users_email") ≡ true
    → signup_conflict (mysql mysql_duplicate_entry (before ++ (username ++ behind)))
      ≡ user err_email_taken
unfolding signup_conflict
signup_conflict_misled before username behind h =
    let found : contains (before ++ (username ++ behind)) (lit "idx_users_email") ≡ true =
      contains-append_left before _ _ (contains-append_right username _ behind h) in
    rw found
