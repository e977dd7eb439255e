-- ===== src/Http/Routes/Ending.antt =====
-- How the parts of a handler of http/server.go that decide about a request end.
use link_nest.Base.{List, [], ℕ, ℤ, ◌≡◌, refl, Bool, true, false, Option, none, some, if◌then◌else◌}
use link_nest.Text.{Text}
use link_nest.Models.{User, Result}
use link_nest.Store.World.{World}
use link_nest.Store.Reach.{Op}
use link_nest.Store.Reach.Runs.{Runs, done, RunsTo, Runs-read, RunsTo-read, to}
use link_nest.Http.{Request, link_id}
use link_nest.Http.Pages.{Server, Response, current_user, bad_form, not_found}
use link_nest.Http.Pages.Signed.{SignedIn, current_user-SignedIn}
use link_nest.Http.Pages.Reading.{current_user-ReadOnly, render_error-ReadOnly, not_found-ReadOnly}
use link_nest.Http.Accounts.{require_auth, gated}
use link_nest.Http.Routes.{Route}
use link_nest.Http.Routes.Permitted.{Permitted}

module _ (s : Server) (r : Request) (now : ℕ) (random : Result Text) (w : World) where
  -- `v` comes of these calls, which the route permits.
  abbrev pub At : Route → List Op → World → Type 0
  At route calls v = Runs s.platform (Permitted s r now random w route) w calls v

  -- `v` comes of calls that the route permits.
  abbrev pub Ends : Route → World → Type 0
  Ends route v = RunsTo s.platform (Permitted s r now random w route) w v

  pub bad_form-Ends : (route : Route) (v : World) → Ends route v → Ends route (bad_form s r v).1
  bad_form-Ends route v runs = RunsTo-read (bad_form s r) (render_error-ReadOnly s r _ _) runs

  pub not_found-Ends : (route : Route) (v : World) → Ends route v → Ends route (not_found s r v).1
  not_found-Ends route v runs = RunsTo-read (not_found s r) (not_found-ReadOnly s r) runs

  pub require_auth-Ends :
      (route : Route) (next : User → World → Response × World)
      → ((u : User) → SignedIn s r w u → (v : World) → At route [] v → Ends route (next u v).1)
      → Ends route (require_auth s r next w).1
  unfolding require_auth
  require_auth-Ends route next behind =
      go (current_user s r w) refl (Runs-read (current_user s r) (current_user-ReadOnly s r) done)
    where
      go :
          (y : (User × Bool) × World)
          → current_user s r w ≡ y
          → At route [] y.1
          → Ends route (gated s r next y).1
      go ((u, true), v) e runs = behind u (current_user-SignedIn s r w e) v runs
      go ((u, false), v) e runs = to runs

  -- A form that parses is handled, another is answered with an error.
  pub form-Ends :
      (route : Route) (v : World) (m : Response × World)
      → At route [] v
      → (r.parses ≡ true → Ends route m.1)
      → Ends route (if r.parses then m else bad_form s r v).1
  form-Ends route v m runs h = choose r.parses refl
    where
      choose : (b : Bool) → r.parses ≡ b → Ends route (if b then m else bad_form s r v).1
      choose true e = h e
      choose false e = bad_form-Ends route v (to runs)

  abbrev pub by_id : World → (ℤ → Response × World) → Option ℤ → Response × World
  by_id v f none = not_found s r v
  by_id v f (some id) = f id

  pub named-Ends :
      (route : Route) (v : World) (path : Text) (f : ℤ → Response × World)
      → At route [] v
      → ((id : ℤ) → link_id path ≡ some id → Ends route (f id).1)
      → Ends route (by_id v f (link_id path)).1
  named-Ends route v path f runs named = choose (link_id path) refl
    where
      choose : (o : Option ℤ) → link_id path ≡ o → Ends route (by_id v f o).1
      choose none e = not_found-Ends route v (to runs)
      choose (some id) e = named id e

  pub choice-Ends :
      (route : Route) (b : Bool) (m n : Response × World)
      → Ends route m.1
      → Ends route n.1
      → Ends route (if b then m else n).1
  choice-Ends route true m n h k = h
  choice-Ends route false m n h k = k
