-- ===== src/Startup/Tests.antt =====
-- Two failed starts, then one that succeeds.
use link_nest.Base.{List, ◌≡◌, refl, true, false, none, some, [], ◌∷◌, ◌++◌, map}
use link_nest.Text.{Text, lit}
use link_nest.Config.{load}
use link_nest.Http.Pages.{Response, redirect}
use link_nest.Startup.{Driver, Attempt, App, new_app, pool_of, to_dsn, invoke}
use link_nest.Startup.Retry.{Invocation, unavailable, invoke-serves}

abbrev sample_driver : Driver
sample_driver = record {
  parse = λ raw. some (record {
    username = lit "u";
    password = lit "p";
    host = lit "h:1";
    path = lit "/db";
    tls = [];
  });
  format_dsn = λ c. c.user ++ c.addr ++ c.db_name;
}

abbrev unset_variables : Text → Text
unset_variables _ = []

abbrev asleep : Attempt
asleep = record { opens = true; pings = false; migrates = true }

abbrev half_awake : Attempt
half_awake = record { opens = true; pings = true; migrates = false }

abbrev awake : Attempt
awake = record { opens = true; pings = true; migrates = true }

abbrev answer : App → Response
answer app = redirect (app.pool.dsn) []

abbrev early : List Invocation
early = (asleep, answer) ∷ (half_awake, answer) ∷ []

abbrev later : List Invocation
later = (asleep, answer) ∷ []

dsn_of_sample : to_dsn sample_driver (load unset_variables).database_url ≡ some (lit "uh:1db")
unfolding to_dsn load
dsn_of_sample = refl

invoke-serves_example :
    invoke sample_driver unset_variables (early ++ (awake, answer) ∷ later) none
    ≡ map (λ _. unavailable) early
      ++ map
          (λ (r : Invocation).
            r.1 (new_app (load unset_variables) (pool_of (load unset_variables) (lit "uh:1db"))))
          ((awake, answer) ∷ later)
invoke-serves_example =
    invoke-serves sample_driver unset_variables (lit "uh:1db") early later awake answer
      dsn_of_sample (refl, (refl, tt)) refl
