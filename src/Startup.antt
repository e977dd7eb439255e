-- ===== src/Startup.antt =====
-- Connecting to the database (db/db.go) and the serverless entry point (api/index.go).
pub mod Retry
mod Tests
use link_nest.Base.{
  ℕ, ℤ, Bool, true, false, ◌&&◌, Option, none, some, List, [], ◌∷◌, ◌==◌, if◌then◌else◌,
}
use link_nest.Text.{Text, lit, equals}
use link_nest.Config.{Config, load}
use link_nest.Metrics.{Registry, new_registry}
use link_nest.Http.Pages.{Response, plain_error}

-- What `net/url.Parse` returns of the address of a database, as far as it is read.
pub record DatabaseUrl : Type 0 where
  pub username : Text
  pub password : Text
  pub host : Text
  pub path : Text
  -- the query parameter "tls"
  pub tls : Text

-- `mysql.Config`, as far as it is set.
pub record MysqlConfig : Type 0 where
  pub user : Text
  pub passwd : Text
  pub net : Text
  pub addr : Text
  pub db_name : Text
  pub parse_time : Bool
  pub utc : Bool
  pub multi_statements : Bool
  pub tls_config : Text

-- The libraries: the parser of URLs and `FormatDSN`.
pub record Driver : Type 0 where
  pub parse : Text → Option DatabaseUrl
  pub format_dsn : MysqlConfig → Text

-- `strings.TrimPrefix(path, "/")`.
abbrev without_slash : Text → Text
without_slash [] = []
without_slash (c ∷ s) = if c == b'/' then s else c ∷ s

unfoldable pub mysql_config : DatabaseUrl → MysqlConfig
mysql_config u = record {
  user = u.username;
  passwd = u.password;
  net = lit "tcp";
  addr = u.host;
  db_name = without_slash u.path;
  parse_time = true;
  utc = true;
  multi_statements = true;
  tls_config = if equals u.tls (lit "true") then lit "true" else [];
}

unfoldable pub to_dsn : Driver → Text → Option Text
unfolding mysql_config
to_dsn d raw = elim (d.parse raw) [ none ↦ none | some u ↦ some (d.format_dsn (mysql_config u)) ]

-- How the calls of the driver go in one attempt to connect: `sql.Open`, the ping, the migration.
pub record Attempt : Type 0 where
  pub opens : Bool
  pub pings : Bool
  pub migrates : Bool

-- A pool that answers.
pub record Pool : Type 0 where
  pub dsn : Text
  pub max_open_conns : ℤ
  pub max_idle_conns : ℤ
  pub conn_max_lifetime : ℕ

abbrev pub pool_of : Config → Text → Pool
pool_of cfg dsn = record {
  dsn = dsn;
  max_open_conns = cfg.max_open_conns;
  max_idle_conns = cfg.max_idle_conns;
  conn_max_lifetime = cfg.conn_max_lifetime;
}

-- A pool that does not answer the ping is closed.
abbrev pub connected : Attempt → Config → Option Text → Option Pool
connected a cfg none = none
connected a cfg (some dsn) = if a.opens && a.pings then some (pool_of cfg dsn) else none

-- `Open`; `none` is an error.
unfoldable pub open_pool : Driver → Attempt → Config → Option Pool
unfolding to_dsn
open_pool d a cfg = connected a cfg (to_dsn d cfg.database_url)

-- `app.New`: the application on its pool, with new metrics.
pub record App : Type 0 where
  pub cfg : Config
  pub pool : Pool
  pub metrics : Registry

abbrev pub new_app : Config → Pool → App
new_app cfg pool = record { cfg = cfg; pool = pool; metrics = new_registry }

-- `Migrate`, and what is kept if it succeeds.
abbrev pub migrated : Attempt → Config → Option Pool → Option App
migrated a cfg none = none
migrated a cfg (some pool) = if a.migrates then some (new_app cfg pool) else none

-- `ensureRoutes` on the variable `routes`, with its new value; `none` is also the error. The lock
-- makes it one step.
unfoldable pub ensure_routes : Driver → (Text → Text) → Attempt → Option App → Option App
unfolding load open_pool
ensure_routes d getenv a (some app) = some app
ensure_routes d getenv a none = let cfg = load getenv in migrated a cfg (open_pool d a cfg)

-- The response of `Handler`, which `serve` gives once there is an application.
unfoldable pub handler : (App → Response) → Option App → Response
handler serve none = plain_error 503 (lit "service unavailable") []
handler serve (some app) = serve app

-- Invocations one after the other, with the handler of each request.
unfoldable pub invoke :
    Driver → (Text → Text) → List (Attempt × (App → Response)) → Option App → List Response
unfolding ensure_routes handler
invoke d getenv [] routes = []
invoke d getenv ((a, serve) ∷ rest) routes =
    let routes' = ensure_routes d getenv a routes in
    handler serve routes' ∷ invoke d getenv rest routes'
