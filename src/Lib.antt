-- ===== src/Lib.antt =====
-- LinkNest, a web application that publishes a page of links for each user and counts the clicks
-- on them, as a state machine over its database.
--
-- The parts of the program, and where they are modelled:
--   models/models.go      Models: the records User, Link and ClickEvent, the errors that are written
--                         for a person (UserError) and those of the driver, and their sum.
--   auth/auth.go          Auth: Slug (the public name of a user), Session (passwords, and the session
--                         cookie with its signature), Flash (a message that survives one redirect),
--                         Click (the idempotency key of a click).
--   store/store.go        Store: Validate (the checks before a statement, and validateSignup with
--                         signupConflict), Links (CreateLink, UpdateLink, DeleteLink, MoveLink with
--                         renumber, orderedLinkIDs and writePositions), Clicks (IngestClick and
--                         LinkForTracking), Users (CreateUser, Authenticate, UserBySlug, UpdateProfile
--                         and the sessions), Reads (LinksForUser, topLinks, APIHistory), Rollup
--                         (AggregatePreviousHour, AggregateDay, CleanupOldClicks, on the tables of
--                         Stats, with the upserts of Upsert), Board (daily, Dashboard,
--                         ExplainIndexes), Reach (all calls that change the database, as steps
--                         of a relation, with the states that they lead to: Steady and Rules carry
--                         an invariant from the statements to the methods, Numbered, Enrolled,
--                         Logged and Shown are such invariants, Runs has sequences of calls).
--   metrics/metrics.go    Metrics: the registry.
--   config/config.go      Config: the environment with its defaults.
--   http/server.go        Http: the helpers that read a request; Http.Pages: currentUser, render and
--                         the kinds of responses; Http.Replies: flashResult, the handlers that
--                         change links, and trackClick; Http.Accounts: register, login, logout,
--                         requireAuth; Http.Profiles: home, dashboard, updateProfile, publicProfile
--                         and the API; Http.Routes: the routes and the instrumentation, with what
--                         each route may do to the database (Permitted, Ending, Changing, Serving,
--                         Shelving, Apart).
--   worker/worker.go      Worker: runHourly, runDaily and the loop over the ticks.
--   app/app.go            App: the template helpers and PageNames.
--   db/db.go, api/index.go  Startup: toDSN, Open, Migrate, app.New, ensureRoutes and Handler.
--   cmd/linknest/main.go  Process: main, from config.Load to a signal. Requests and ticks of the workers
--                         come one after the other, each on the world that the one before left.
--   preview/main.go       Preview: the tool that shows the templates with sample data.
-- Web has the cookies of requests and responses, and a browser that keeps them until they expire;
-- Base, the helpers that all share. Functions keep their Go names in snake case. The handlers of http/server.go call
-- the store with the user of the session cookie, and turn its errors into flash messages, which
-- Auth.Flash carries to the next page; trackClick records a click (Store.Clicks) and counts it
-- (Metrics).
--
-- A method of the store is a function of type `Db A`, from a `World` to a result and a `World`
-- (Store.World). The world holds the tables of db/migrations/001_init_mysql.sql, the counters of
-- the AUTO_INCREMENT columns, the time of the database, and a list of faults: each call of the
-- driver takes the next entry, and fails with it if it is an error. A theorem that quantifies over
-- worlds therefore speaks of every way in which calls can fail. `in_tx` is BeginTx with the
-- deferred Rollback: a body that fails, at its Commit too, leaves the tables as they were, while
-- counters are not given back.
--
-- Texts are lists of bytes (Text); UTF-8, the space characters, lower case in ASCII, base64url and
-- decimal numbers are written out there. What the program takes from outside the repository is the
-- record Platform: lower case above ASCII, the parsers of addresses and URLs, HMAC, SHA-256,
-- bcrypt, the format of times, the equality of text columns under the collation of the database,
-- and its message about a duplicate key. Theorems hold for every platform; Platform.Sample is one
-- for runs.
--
-- Bounds: identifiers, positions and counts are natural numbers, and identifiers in requests are
-- integers; the widths of columns are not modelled, and a statement that violates one is among the
-- faults. Times are seconds; where a browser is followed over time, it has the clock of the server
-- and the database. Loops are structural recursion on the list that they run over; only the digits
-- of a number n are found with fuel, n + 1 rounds, which is more than it has digits. The counters
-- of the registry wrap at 2^64. Transactions run one after the other: locks and isolation are
-- MySQL's.
--
-- Of net/http, html/template and encoding/json, Http.Pages.Server and Http.Routes.Library hold what
-- the handlers use: the execution of a template on its data, the encoder of JSON, the multiplexer
-- and the file server. A client of the API (Http.Profiles.Follow) has its own bound on the number of
-- requests, one more than there are events. One time stands for all clock readings of a request. SQL leaves the order of
-- groups open; a group stands where its last event does, and no theorem depends on it. The tickers
-- give a list of ticks, and attempts to start a list of outcomes of the driver's calls.
--
-- Not modelled: the templates' text, the embedding of files in web/embed.go, the goroutines and locks,
-- the limits of time in cmd/linknest/main.go, and the files of the deployment. They hold no state of
-- the program, or are a matter of the libraries.
pub mod Base
pub mod Text
pub mod Platform
pub mod Models
pub mod Web
pub mod Auth
pub mod Store
pub mod Metrics
pub mod Config
pub mod Http
pub mod Worker
pub mod App
pub mod Startup
pub mod Process
pub mod Preview
