-- ===== src/Startup/Retry.antt =====
-- Failed starts are retried, and a start that has succeeded lasts.
use link_nest.Base.{
  ◌≡◌, refl, ap, ◌∙◌, inl, inr, true, false, ◌&&◌, Option, none, some, List, [], ◌∷◌, ◌++◌, map,
  All, if◌then◌else◌, arith, Bool-cases,
}
use link_nest.Text.{Text, lit}
use link_nest.Config.{load}
use link_nest.Http.Pages.{Response, plain_error}
use link_nest.Startup.{
  Driver, Attempt, to_dsn, pool_of, connected, open_pool, App, new_app, migrated, ensure_routes,
  handler, invoke,
}

-- Every call of the driver succeeds, or one fails.
abbrev pub Succeeds : Attempt → Type 0
Succeeds a = (a.opens && (a.pings && a.migrates)) ≡ true

abbrev pub Fails : Attempt → Type 0
Fails a = (a.opens && (a.pings && a.migrates)) ≡ false

abbrev pub Invocation : Type 0
Invocation = Attempt × (App → Response)

abbrev pub unavailable : Response
unavailable = plain_error 503 (lit "service unavailable") []

module _ (d : Driver) (getenv : Text → Text) where
  connected-Fails :
      (a : Attempt) (o : Option Text)
      → Fails a
      → migrated a (load getenv) (connected a (load getenv) o) ≡ none
  connected-Fails a none h = refl
  connected-Fails a (some dsn) h = elim (Bool-cases (a.opens && a.pings)) [
    | inl e ↦ let stuck : a.migrates ≡ false = ground arith in rw e (rw stuck refl)
    | inr e ↦ rw e refl
  ]

  ensure_routes-Fails : (a : Attempt) → Fails a → ensure_routes d getenv a none ≡ none
  unfolding ensure_routes open_pool
  ensure_routes-Fails a h = connected-Fails a (to_dsn d (load getenv).database_url) h

  ensure_routes-Succeeds :
      (a : Attempt) (dsn : Text)
      → Succeeds a
      → to_dsn d (load getenv).database_url ≡ some dsn
      → ensure_routes d getenv a none ≡ some (new_app (load getenv) (pool_of (load getenv) dsn))
  unfolding ensure_routes open_pool
  ensure_routes-Succeeds a dsn h named =
      let up : (a.opens && a.pings) ≡ true = ground arith in
      let filled : a.migrates ≡ true = ground arith in
      ap (λ o. migrated a (load getenv) (connected a (load getenv) o)) named
      ∙ ap (λ b. migrated a (load getenv) (if b then some (pool_of (load getenv) dsn) else none)) up
      ∙ ap (λ b. if b then some (new_app (load getenv) (pool_of (load getenv) dsn)) else none)
          filled

  invoke-some :
      (app : App) (rs : List Invocation)
      → invoke d getenv rs (some app) ≡ map (λ (r : Invocation). r.1 app) rs
  unfolding invoke ensure_routes handler
  invoke-some app [] = refl
  invoke-some app ((a, serve) ∷ rs) = ap (λ xs. serve app ∷ xs) (invoke-some app rs)

  -- However many invocations come while the database cannot be reached: each of them is answered with
  -- status 503, and from the first invocation whose calls of the driver all succeed, each is served by
  -- one and the same application, whatever would become of later attempts to connect.
  pub invoke-serves :
      (dsn : Text) (early later : List Invocation) (a : Attempt) (serve : App → Response)
      → to_dsn d (load getenv).database_url ≡ some dsn
      → All (λ (r : Invocation). Fails r.0) early
      → Succeeds a
      → invoke d getenv (early ++ (a, serve) ∷ later) none
        ≡ map (λ _. unavailable) early
          ++ map
              (λ (r : Invocation). r.1 (new_app (load getenv) (pool_of (load getenv) dsn)))
              ((a, serve) ∷ later)
  unfolding invoke handler
  invoke-serves dsn [] later a serve named fails h =
      let app = new_app (load getenv) (pool_of (load getenv) dsn) in
      let started = ensure_routes-Succeeds a dsn h named in
      ap (λ o. handler serve o ∷ invoke d getenv later o) started
      ∙ ap (λ xs. serve app ∷ xs) (invoke-some app later)
  invoke-serves dsn ((b, first) ∷ early) later a serve named (fail, fails) h =
      ap (λ o. handler first o ∷ invoke d getenv (early ++ (a, serve) ∷ later) o)
        (ensure_routes-Fails b fail)
      ∙ ap (λ xs. unavailable ∷ xs) (invoke-serves dsn early later a serve named fails h)
