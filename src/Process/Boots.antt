-- ===== src/Process/Boots.antt =====
-- How `main` and the first invocation of the serverless entry point start, call by call.
use link_nest.Base.{◌≡◌, refl, ◌⊎◌, inl, inr, Bool, true, false, Option, none, some}
use link_nest.Text.{Text}
use link_nest.Config.{load}
use link_nest.Metrics.{new_registry}
use link_nest.Startup.{
  Driver, DatabaseUrl, mysql_config, to_dsn, Attempt, Pool, connected, open_pool, App, migrated,
  ensure_routes,
}
use link_nest.Process.{Boot, open_failed, migrate_failed, listening, opened, boot}

module _ (d : Driver) (getenv : Text → Text) (a : Attempt) where
  -- The application on the database of this address, by the environment.
  abbrev app_on : DatabaseUrl → App
  app_on u =
      let cfg = load getenv in
      record {
        cfg = cfg;
        pool = record {
          dsn = d.format_dsn (mysql_config u);
          max_open_conns = cfg.max_open_conns;
          max_idle_conns = cfg.max_idle_conns;
          conn_max_lifetime = cfg.conn_max_lifetime;
        };
        metrics = new_registry;
      }

  -- How `main` gets on, beside what the entry point has after its first invocation.
  pub data Booted (b : Boot) (routes : Option App) : Type 0 where
    unopened :
        (d.parse (load getenv).database_url ≡ none) ⊎ ((a.opens ≡ false) ⊎ (a.pings ≡ false))
        → b ≡ open_failed
        → routes ≡ none
        → Booted b routes
    unmigrated :
        a.opens ≡ true
        → a.pings ≡ true
        → a.migrates ≡ false
        → b ≡ migrate_failed
        → routes ≡ none
        → Booted b routes
    listens :
        (u : DatabaseUrl)
        → d.parse (load getenv).database_url ≡ some u
        → a.opens ≡ true
        → a.pings ≡ true
        → a.migrates ≡ true
        → b ≡ listening (app_on u)
        → routes ≡ some (app_on u)
        → Booted b routes

  abbrev Both : Option Pool → Type 0
  Both o = Booted (opened a (load getenv) o) (migrated a (load getenv) o)

  abbrev dsn_of : Option DatabaseUrl → Option Text
  dsn_of o = elim o [ none ↦ none | some u ↦ some (d.format_dsn (mysql_config u)) ]

  abbrev going : Bool → Bool → Bool → Attempt
  going opens pings migrates = record { opens = opens; pings = pings; migrates = migrates }

  -- Both, if the calls of the driver go like this.
  abbrev With : Attempt → DatabaseUrl → Type 0
  With b u =
      let cfg = load getenv in
      let pool = connected b cfg (dsn_of (some u)) in
      Booted (opened b cfg pool) (migrated b cfg pool)

  on_address :
      (u : DatabaseUrl)
      → d.parse (load getenv).database_url ≡ some u
      → (opens pings migrates : Bool) → a.opens ≡ opens
      → a.pings ≡ pings
      → a.migrates ≡ migrates
      → With (going opens pings migrates) u
  on_address u e false _ _ x y z = unopened (inr (inl x)) refl refl
  on_address u e true false _ x y z = unopened (inr (inr y)) refl refl
  on_address u e true true false x y z = unmigrated x y z refl refl
  on_address u e true true true x y z = listens u e x y z refl refl

  connected-Booted :
      (o : Option DatabaseUrl)
      → d.parse (load getenv).database_url ≡ o
      → Both (connected a (load getenv) (dsn_of o))
  connected-Booted none e = unopened (inl e) refl refl
  connected-Booted (some u) e = on_address u e a.opens a.pings a.migrates refl refl refl

  -- In one environment, with calls of the driver that go the same way, `main` and the first invocation
  -- of the serverless entry point start alike. If the address of the database does not parse, or the
  -- opening or the ping fails, `main` ends with that error; if the migration fails, it ends with that
  -- one; and the entry point is left without an application. If all succeed, both have the application
  -- with the configuration and the pool of the environment, and new metrics.
  pub boot-Booted : Booted (boot d getenv a) (ensure_routes d getenv a none)
  unfolding boot ensure_routes open_pool to_dsn
  boot-Booted = connected-Booted (d.parse (load getenv).database_url) refl
