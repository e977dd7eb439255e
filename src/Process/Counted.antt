-- ===== src/Process/Counted.antt =====
-- Every request and every tick that comes to the process is counted once.
use Prim.Native.Nat.{◌^◌}
use link_nest.Base.{
  ℕ, ℤ, ◌+◌, ◌%◌, ◌≡◌, refl, sym, ap, ◌∙◌, Bool, true, false, Option, none, some, List, [], ◌∷◌,
  ◌++◌, arith,
}
use link_nest.Text.{Text, lit, equals}
use link_nest.Models.{Link, Result, ok, err}
use link_nest.Metrics.{Registry, new_registry, inc, observe}
use link_nest.Metrics.Counters.{
  Act, increment, observed, act_all, counter_of, total_of, counter_of-act_all,
}
use link_nest.Store.World.{World}
use link_nest.Http.{Request, link_id}
use link_nest.Http.Pages.{Server}
use link_nest.Http.Replies.{counted, track_link, track_id, track_click}
use link_nest.Http.Routes.{Route, Library, handle, serve, requests_total}
use link_nest.Worker.{failures_total, hourly_runs_total, daily_runs_total, run_job}
use link_nest.Worker.Runs.{Recorded, run_job-Recorded, ticks_in, total_of-append, act_all-append}
use link_nest.Process.{requested, ticked, elapsed, Input, event, interrupt, react, process}

-- What is recorded from one registry to another, with the requests and the ticks in it.
record Noted (requests ticks : ℕ) (m m' : Registry) : Type 0 where
  acts : List Act
  recorded : act_all acts m ≡ m'
  requested : total_of requests_total acts ≡ requests
  ticked : ticks_in acts ≡ ticks

Noted-append :
    {i j k l n t : ℕ} {a b c : Registry}
    → Noted i k a b
    → Noted j l b c
    → i + j ≡ n
    → k + l ≡ t
    → Noted n t a c
Noted-append {a = a} x y sum_requests sum_ticks = record {
  acts = x.acts ++ y.acts;
  recorded = act_all-append (x.acts) (y.acts) a ∙ ap (act_all (y.acts)) (x.recorded) ∙ y.recorded;
  requested = omega (
    arith,
    total_of-append requests_total (x.acts) (y.acts),
    x.requested,
    y.requested,
    sum_requests,
  );
  ticked = omega (
    arith,
    total_of-append failures_total (x.acts) (y.acts),
    total_of-append hourly_runs_total (x.acts) (y.acts),
    total_of-append daily_runs_total (x.acts) (y.acts),
    x.ticked,
    y.ticked,
    sum_ticks,
  );
}

nothing : (m : Registry) → Noted 0 0 m m
nothing m = record { acts = []; recorded = refl; requested = refl; ticked = refl }

counted-Noted : (x : Result Bool) (m : Registry) → Noted 0 0 m (counted x m).1
unfolding counted equals
counted-Noted (ok true) m = record {
  acts = increment (lit "linknest_click_events_ingested_total") 1 ∷ [];
  recorded = refl;
  requested = refl;
  ticked = refl;
}
counted-Noted (ok false) m = record {
  acts = increment (lit "linknest_click_events_deduplicated_total") 1 ∷ [];
  recorded = refl;
  requested = refl;
  ticked = refl;
}
counted-Noted (err e) m = nothing m

module _ (s : Server) (l : Library) (r : Request) (now : ℕ) (random : Result Text) where
  track_link-Noted :
      (x : Result Link × World) (m : Registry) → Noted 0 0 m (track_link s.platform r now x m).1
  track_link-Noted (ok link, w) m = counted-Noted _ m
  track_link-Noted (err e, w) m = nothing m

  track_id-Noted :
      (o : Option ℤ) (m : Registry) (w : World) → Noted 0 0 m (track_id s.platform r now o m w).1
  track_id-Noted none m w = nothing m
  track_id-Noted (some id) m w = track_link-Noted _ m

  handle-Noted :
      (route : Route) (m : Registry) (w : World) → Noted 0 0 m (handle s l r now random route m w).1
  unfolding handle track_click
  handle-Noted Route.static_route m w = nothing m
  handle-Noted Route.home_route m w = nothing m
  handle-Noted Route.up_route m w = nothing m
  handle-Noted Route.metrics_route m w = nothing m
  handle-Noted Route.register_form_route m w = nothing m
  handle-Noted Route.register_route m w = nothing m
  handle-Noted Route.login_form_route m w = nothing m
  handle-Noted Route.login_route m w = nothing m
  handle-Noted Route.logout_route m w = nothing m
  handle-Noted Route.dashboard_route m w = nothing m
  handle-Noted Route.profile_route m w = nothing m
  handle-Noted Route.create_route m w = nothing m
  handle-Noted (Route.update_route id) m w = nothing m
  handle-Noted (Route.delete_route id) m w = nothing m
  handle-Noted (Route.move_route id) m w = nothing m
  handle-Noted (Route.track_route id) m w = track_id-Noted (link_id id) m w
  handle-Noted Route.events_route m w = nothing m
  handle-Noted Route.status_route m w = nothing m
  handle-Noted (Route.public_route slug) m w = nothing m
  handle-Noted Route.no_route m w = nothing m

  served :
      (duration : ℕ) (m : Registry)
      → Noted 1 0 m
          (observe (lit "linknest_http_request_duration") duration (inc requests_total 1 m))
  unfolding equals
  served duration m = record {
    acts =
        increment requests_total 1 ∷ observed (lit "linknest_http_request_duration") duration ∷ [];
    recorded = refl;
    requested = refl;
    ticked = refl;
  }

  serve-Noted :
      (duration : ℕ) (m : Registry) (w : World)
      → Noted 1 0 m (serve s l r now random duration m w).1
  unfolding serve
  serve-Noted duration m w =
      Noted-append (handle-Noted (l.route r) m w) (served duration _) refl refl

-- The requests and the ticks before a signal.
abbrev pub requests_of : List Input → ℕ
requests_of [] = 0
requests_of (interrupt ∷ es) = 0
requests_of (event (requested r now random duration) ∷ es) = 1 + requests_of es
requests_of (event (ticked t) ∷ es) = requests_of es
requests_of (event (elapsed now faults) ∷ es) = requests_of es

abbrev pub ticks_of : List Input → ℕ
ticks_of [] = 0
ticks_of (interrupt ∷ es) = 0
ticks_of (event (requested r now random duration) ∷ es) = ticks_of es
ticks_of (event (ticked t) ∷ es) = 1 + ticks_of es
ticks_of (event (elapsed now faults) ∷ es) = ticks_of es

run_job-Noted : {m m' : Registry} → Recorded 1 m m' → Noted 0 1 m m'
unfolding equals
run_job-Noted x = record {
  acts = x.acts;
  recorded = x.recorded;
  requested = (x.others) requests_total (refl, refl, refl);
  ticked = x.counted;
}

module _ (s : Server) (l : Library) where
  process-Noted :
      (es : List Input) (m : Registry) (w : World)
      → Noted (requests_of es) (ticks_of es) m (process s l es m w).1
  unfolding process react
  process-Noted [] m w = nothing m
  process-Noted (interrupt ∷ es) m w = nothing m
  process-Noted (event (requested r now random duration) ∷ es) m w =
      let x = serve s l r now random duration m w in
      Noted-append (serve-Noted s l r now random duration m w) (process-Noted es x.1 x.2) refl
        (omega arith)
  process-Noted (event (ticked t) ∷ es) m w =
      let x = run_job s.platform t.job t.now t.duration m w in
      Noted-append (run_job-Noted (run_job-Recorded s.platform t.job t.now t.duration m w))
        (process-Noted es x.0 x.1) (omega arith) refl
  process-Noted (event (elapsed now faults) ∷ es) m w =
      process-Noted es m (record w { now = now; faults = faults })

  -- From new metrics, whatever comes to the process and whichever calls of the driver fail: the counter
  -- of requests is the number of requests before a signal, and the counters of failures, hourly runs
  -- and daily runs of the workers add up to the number of ticks before it, both modulo 2^64.
  pub process-counted :
      (es : List Input) (w : World)
      → let m = (process s l es new_registry w).1 in
        (counter_of requests_total m ≡ requests_of es % 2 ^ 64)
        × ((counter_of failures_total m
                + counter_of hourly_runs_total m
                + counter_of daily_runs_total m)
              % 2 ^ 64
            ≡ ticks_of es % 2 ^ 64)
  process-counted es w =
      let x = process-Noted es new_registry w in
      let count : (name : Text)
          → counter_of name (process s l es new_registry w).1 ≡ total_of name (x.acts) % 2 ^ 64 =
        λ name. ap (counter_of name) (sym (x.recorded)) ∙ counter_of-act_all name (x.acts) in
      (
        count requests_total ∙ ap (λ n. n % 2 ^ 64) (x.requested),
        omega (
          arith,
          count failures_total,
          count hourly_runs_total,
          count daily_runs_total,
          x.ticked,
        ),
      )
