-- ===== src/Store/Users/Tests.antt =====
-- Accounts and sessions on a small database.
use link_nest.Store.Stats.{no_stats}
use link_nest.Base.{◌≡◌, refl, [], ◌∷◌, ◌+◌, ◌*◌}
use link_nest.Text.{lit, equals, equals_refl, has_prefix, contains, drop_while, drop_while_end}
use mathlib.Core.List.{flatten, flat_map}
use link_nest.Text.Base64.{encode}
use link_nest.Text.Utf8.{trim_space, units_from, to_lower, encode_rune, decode_rune, lower_rune}
use link_nest.Auth.Slug.{slug, slug_step, trim_dashes}
use link_nest.Auth.Session.{hash_password, new_session_id}
use link_nest.Store.Validate.{
  validate_signup, matches_username, all_username_bytes, validate_names, is_bare_address,
  signup_conflict,
}
use link_nest.Platform.{Platform}
use link_nest.Platform.Sample.{sample, parse_address_simple}
use link_nest.Models.{User, ok, ok-inj}
use link_nest.Store.World.{World, call}
use link_nest.Store.World.Robust.{quiet}
use link_nest.Store.Users.{
  create_user, create_session, delete_session, user_by_slug, authenticate, conflicting, insert_user,
  new_user, taken, violation,
}
use link_nest.Store.Users.Accounts.{create_user-user_by_slug, create_user-authenticate}

-- A platform whose database ignores case.
abbrev folding : Platform
folding = record sample { same = sample.same_lower }

abbrev ada : User
ada = record {
  id = 7;
  email = lit "ada@x.org";
  username = lit "Ada";
  slug = lit "ada";
  first_name = lit "Ada";
  last_name = lit "L";
  bio = [];
  profile_color = lit "#56738c";
}

-- A database without accounts.
abbrev empty : World
empty = record {
  tables = record { users = []; sessions = []; links = []; click_events = []; stats = no_stats };
  serials = record { user = 7; link = 1; event = 1; run = 1 };
  now = 100;
  faults = [];
}

abbrev with_ada : World
with_ada = record empty {
  tables = record (empty.tables) {
    users = record { user = ada; password_hash = lit "password" } ∷ [];
  };
  serials = record (empty.serials) { user = 8 };
}

abbrev with_session : World
with_session = record with_ada {
  tables = record (with_ada.tables) {
    sessions =
        record {
          id = lit "AQID";
          user_id = 7;
          ip_address = lit "ip";
          user_agent = lit "ua";
          expires_at = 100 + 30 * 24 * 3600;
        }
        ∷ [];
  };
}

signup :
    create_user folding ok
      (lit " ada@x.org")
      (lit "password")
      (lit "Ada")
      (lit "Ada")
      (lit "L")
      empty
    ≡ (ok ada, with_ada)
unfolding create_user validate_signup trim_space flatten drop_while_end drop_while units_from
    parse_address_simple equals matches_username all_username_bytes slug to_lower flat_map
    encode_rune validate_names hash_password slug_step trim_dashes conflicting insert_user new_user
    taken violation is_bare_address signup_conflict call contains has_prefix decode_rune lower_rune
signup = refl

opened :
    create_session sample (ok (1 ∷ 2 ∷ 3 ∷ [])) 100 7 (lit "ip") (lit "ua") with_ada
    ≡ (ok (lit "AQID"), with_session)
unfolding create_session new_session_id call encode
opened = refl

closed : delete_session sample (lit "AQID") with_session ≡ (ok tt, with_ada)
unfolding delete_session call equals
closed = refl

create_user-user_by_slug_example : (user_by_slug folding (lit "ada") (quiet with_ada)).0 ≡ ok ada
create_user-user_by_slug_example =
    create_user-user_by_slug folding ok (lit " ada@x.org") (lit "password") (lit "Ada") (lit "Ada")
      (lit "L") empty with_ada ada (λ s. equals_refl _) signup

create_user-authenticate_example :
    (authenticate folding (lit "ada@x.org") (lit "password") (quiet with_ada)).0 ≡ ok ada
create_user-authenticate_example =
    create_user-authenticate folding ok (lit " ada@x.org") (lit "password") (lit "Ada") (lit "Ada")
      (lit "L") empty with_ada ada (λ hash e. rw (← ok-inj e) (equals_refl (lit "password")))
      (λ s t h. h) (λ s. equals_refl _) signup
