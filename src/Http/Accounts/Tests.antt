-- ===== src/Http/Accounts/Tests.antt =====
-- Requests of a visitor and of a user, on examples.
use link_nest.Base.{
  ℕ, pos, ◌+◌, ◌*◌, ◌≡◌, refl, Bool, true, false, none, some, List, [], ◌∷◌, ◌++◌, ltb,
  if◌then◌else◌, arith,
}
use link_nest.Text.{lit, equals, equals_refl}
use link_nest.Text.Base64.{encode}
use mathlib.Core.List.{flat_map}
use link_nest.Text.Utf8.{to_lower, units_from, encode_rune}
use link_nest.Platform.Sample.{sample}
use link_nest.Models.{User, ok}
use link_nest.Web.{Jar, Held, find_cookie, receive, sent}
use link_nest.Auth.Session.{cookie_name, sign, check_password, new_session_id}
use link_nest.Store.Stats.{no_stats}
use link_nest.Store.World.{LinkRow, World, call}
use link_nest.Store.World.Robust.{quiet}
use link_nest.Store.Users.{authenticate, create_session, delete_session, find_user}
use link_nest.Store.Users.Sessions.{sessions_of}
use link_nest.Http.{Request, client_ip}
use link_nest.Http.Pages.{no_user, Server, current_user}
use link_nest.Http.Accounts.{require_auth, login, logout}
use link_nest.Http.Accounts.Leaving.{Guarded, require_auth-Guarded, logout-current_user}
use link_nest.Http.Accounts.Lasting.{login-current_user}
use link_nest.Http.Profiles.{dashboard_page, public_profile}
use link_nest.Http.Profiles.Public.{only_public, revealed, public_profile_blind}

abbrev server : Server
server = record {
  platform = sample;
  cfg = record {
    addr = [];
    database_url = [];
    session_secret = lit "key";
    max_open_conns = pos 1;
    max_idle_conns = pos 1;
    conn_max_lifetime = 0;
  };
  execute = λ name page. some name;
  encode = λ _. [];
  status_text = λ _. [];
  generate = λ password. ok password;
  indexes = 0;
}

abbrev bob : User
bob = record {
  id = 7;
  email = lit "b";
  username = lit "bob";
  slug = lit "bob";
  first_name = lit "B";
  last_name = lit "C";
  bio = [];
  profile_color = [];
}

abbrev link_row : ℕ → Bool → LinkRow
link_row id public = record {
  link = record {
    id = id;
    user_id = 7;
    title = lit "t";
    url = lit "/x";
    position = id;
    public = public;
    icon_color = [];
    click_count = 0;
  };
  updated_at = 5;
}

abbrev home : World
home = record {
  tables = record {
    users = record { user = bob; password_hash = lit "password" } ∷ [];
    sessions = [];
    links = link_row 1 true ∷ link_row 2 false ∷ [];
    click_events = [];
    stats = no_stats;
  };
  serials = record { user = 8; link = 3; event = 1; run = 1 };
  now = 100;
  faults = [];
}

abbrev with_session : World
with_session = record home {
  tables = record (home.tables) {
    sessions =
        record {
          id = lit "AQID";
          user_id = 7;
          ip_address = lit "1.2.3.4";
          user_agent = [];
          expires_at = 100 + 30 * 24 * 3600;
        }
        ∷ [];
  };
}

abbrev request : Jar → Request
request cookies = record {
  path = lit "/";
  header = λ _. [];
  cookies = cookies;
  parses = true;
  form = λ key. if equals key (lit "email") then lit "b" else lit "password";
  query = λ _. [];
  host = lit "x.org";
  is_tls = true;
  remote_addr = lit "1.2.3.4:5";
  remote_host = some (lit "1.2.3.4");
}

abbrev session_jar : Jar
session_jar = (cookie_name, sign sample (lit "AQID") (lit "key")) ∷ []

require_auth-Guarded_example :
    Guarded server
      (request [])
      (dashboard_page server (request []))
      home
      (require_auth server (request []) (dashboard_page server (request [])) home)
require_auth-Guarded_example =
    require_auth-Guarded server (request []) (dashboard_page server (request [])) home

closed : delete_session sample (lit "AQID") with_session ≡ (ok tt, home)
unfolding delete_session call equals
closed = refl

presented : find_cookie cookie_name session_jar ≡ some (sign sample (lit "AQID") (lit "key"))
unfolding find_cookie equals
presented = refl

abbrev browser : List Held
browser =
    record { name = cookie_name; value = sign sample (lit "AQID") (lit "key"); until = some 900 }
    ∷ []

logout-current_user_example :
    (find_cookie cookie_name (
        sent 160 (receive 150 browser (logout server (request session_jar) with_session).0.cookies))
      ≡ none)
    × ((current_user server
          (request session_jar)
          (logout server (request session_jar) with_session).1).0.1
        ≡ false)
logout-current_user_example =
    logout-current_user server (request session_jar) (request session_jar) with_session home
      (logout server (request session_jar) with_session).1 (lit "AQID") browser 150 160
      (omega arith) presented presented closed refl

known :
    authenticate sample ((request []).form (lit "email")) ((request []).form (lit "password")) home
    ≡ (ok bob, home)
unfolding authenticate call equals to_lower flat_map units_from encode_rune check_password
known = refl

opened :
    create_session sample (ok (1 ∷ 2 ∷ 3 ∷ [])) 100 7 (client_ip (request [])) [] home
    ≡ (ok (lit "AQID"), with_session)
unfolding create_session new_session_id call encode client_ip
opened = refl

-- Later, when somebody else has signed in.
abbrev later : World
later = record with_session {
  now = 500;
  tables = record (with_session.tables) {
    sessions =
        with_session.tables.sessions
        ++ record {
          id = lit "BAUG";
          user_id = 7;
          ip_address = lit "1.2.3.4";
          user_agent = [];
          expires_at = 700;
        }
          ∷ [];
  };
}

abbrev signed_in : Request
signed_in =
    request (
      sent 500
        (receive 100 [] (login server (request []) 100 (ok (1 ∷ 2 ∷ 3 ∷ [])) home).0.cookies))

unchanged :
    sessions_of sample (lit "AQID") later.tables.sessions
    ≡ sessions_of sample
        (lit "AQID")
        (login server (request []) 100 (ok (1 ∷ 2 ∷ 3 ∷ [])) home).1.tables.sessions
unfolding login authenticate check_password create_session new_session_id call encode client_ip
    equals to_lower flat_map units_from encode_rune
unchanged = refl

login-current_user_example :
    ((login server (request []) 100 (ok (1 ∷ 2 ∷ 3 ∷ [])) home).0.location
      ≡ some (lit "/dashboard"))
    × ((current_user server signed_in (quiet later)).0
        ≡ (if ltb 500 (100 + 30 * 24 * 3600) then (bob, true) else (no_user, false)))
unfolding find_user equals
login-current_user_example =
    login-current_user server (request []) signed_in [] 100 (ok (1 ∷ 2 ∷ 3 ∷ [])) (1 ∷ 2 ∷ 3 ∷ [])
      bob bob (lit "AQID") home home with_session later equals_refl (omega arith) refl refl known
      opened refl refl unchanged

public_profile_blind_example :
    public_profile server (request []) (lit "bob") (only_public home)
    ≡ revealed (public_profile server (request []) (lit "bob") home)
public_profile_blind_example = public_profile_blind server (request []) (lit "bob") home
