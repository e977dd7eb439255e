-- ===== src/Store/Rollup/Runs.antt =====
-- Running a roll-up: what its transaction leaves alone, and where its upsert happens.

use link_nest.Base.{ℕ, ◌≡◌, refl, sym, ap, ◌∙◌, List, [], map}
use link_nest.Text.{Text}
use link_nest.Models.{Result, ok, err}
use link_nest.Store.Stats.{WorkerRun}
use link_nest.Store.World.{Tables, World, Db, pure, call, gets, modify, ◌>>=◌, ◌>>◌}
use link_nest.Store.World.Atomic.{call-tables}
use link_nest.Store.World.Runs.{
  Passed, bind_inv, Passed-call-tables, Keeps, Keeps-bind, Keeps-call, Keeps-lift,
}
use link_nest.Store.Rollup.{with_stats, rows_affected, insert_run, start_run, finished, finish_run}

abbrev pub tables_of : {A : Type 0} → Result A × World → Tables
tables_of x = x.1.tables

-- A part of the tables that a method leaves alone is the same after a run of it.
pub Passed-keep :
    {A B : Type 0} (f : Tables → B) (m : Db A) {w : World}
    → Keeps (λ t. f t ≡ f w.tables) m
    → (s : Passed m w) → f s.after.tables ≡ f w.tables
Passed-keep f m {w} k s = ap (λ x. f (tables_of x)) (sym (s.run)) ∙ k.keep w refl

-- A property that does not depend on the log of runs.
module _ (P : Tables → Type 0)
    (any : (t : Tables) (runs : List WorkerRun)
      → P t
      → P (record t { stats = record (t.stats) { runs = runs } })) where
  insert_run-Keeps : (name : Text) → Keeps P (insert_run name)
  unfolding insert_run
  insert_run-Keeps name = record { keep = λ w h. any w.tables _ h }

  pub start_run-Keeps : (name : Text) → Keeps P (start_run name)
  unfolding start_run
  start_run-Keeps name =
      Keeps-bind P call (λ _. insert_run name >>= λ id. call >> pure id) (Keeps-call P)
        (λ _.
          Keeps-bind P (insert_run name) (λ id. call >> pure id) (insert_run-Keeps name)
            (λ id. Keeps-bind P call (λ _. pure id) (Keeps-call P) (λ _. Keeps-lift P (ok id))))

  pub finish_run-Keeps : (id rows : ℕ) → Keeps P (finish_run id rows)
  unfolding finish_run with_stats
  finish_run-Keeps id rows =
      Keeps-bind P call
        (λ _.
          modify
            (λ w. with_stats (λ s. record s { runs = map (finished id rows w.now) (s.runs) }) w))
        (Keeps-call P) (λ _. record { keep = λ w h. any w.tables _ h })

counted_tables :
    (n : ℕ) (x : Result (Unit {0}) × World)
    → (let (r, w') = x in
        elim r as (λ _. Result ℕ × World) [ ok _ ↦ (ok n, w') | err _ ↦ (ok 0, w') ]).1.tables
      ≡ x.1.tables
counted_tables n (ok u, w) = refl
counted_tables n (err e, w) = refl

pub rows_affected-tables : (n : ℕ) (w : World) → (rows_affected n w).1.tables ≡ w.tables
unfolding rows_affected
rows_affected-tables n w = counted_tables n (call w) ∙ call-tables w

-- A statement between a call of the driver and the reading of its affected rows has changed the
-- tables by `change`, at some world with the tables from before.
pub upsert_inv :
    (count : World → ℕ) (change : World → Tables) (m : Db ℕ) (w : World)
    → m ≡ (λ w. (call >>= λ _. gets count >>= λ n. modify change >>= λ _. rows_affected n) w)
    → (s : Passed m w) → (x : World) × (x.tables ≡ w.tables) × (s.after.tables ≡ change x)
upsert_inv count change m w same s =
    let run = ap (λ (f : Db ℕ). f w) (sym same) ∙ s.run in
    let (began, e₁) =
      bind_inv call (λ _. gets count >>= λ n. modify change >>= λ _. rows_affected n) w run in
    let x = began.after in
    let changed : World = record x { tables = change x } in
    (x, Passed-call-tables began, ap tables_of (sym e₁) ∙ rows_affected-tables (count x) changed)

-- All but the log of runs.
abbrev pub but_runs : Tables → Tables
but_runs t = record t { stats = record (t.stats) { runs = [] } }

-- The same with another log of runs.
abbrev pub with_runs : List WorkerRun → Tables → Tables
with_runs runs t = record t { stats = record (t.stats) { runs = runs } }

pub eq_with_runs : (s t : Tables) → but_runs s ≡ but_runs t → s ≡ with_runs s.stats.runs t
eq_with_runs s t e = ap (with_runs s.stats.runs) e

-- A roll-up: a run is logged, something is done, the run is completed, and the transaction commits.
pub rolled_inv :
    (name : Text) (work : Db ℕ) (body : Db ℕ) (w v : World) (n : ℕ)
    → body ≡ (λ w.
      (start_run name >>= λ id.
      work >>= λ rows. finish_run id rows >>= λ _. call >>= λ _. pure rows)
        w)
    → body w ≡ (ok n, v)
    → (x : World) × (s : Passed work x) × (but_runs x.tables ≡ but_runs w.tables)
      × (but_runs v.tables ≡ but_runs s.after.tables)
rolled_inv name work body w v n same done =
    let run = ap (λ (f : Db ℕ). f w) (sym same) ∙ done in
    let (started, e₁) =
      bind_inv (start_run name)
        (λ id. work >>= λ rows. finish_run id rows >>= λ _. call >>= λ _. pure rows) w run in
    let (worked, e₂) =
      bind_inv work (λ rows. finish_run (started.value) rows >>= λ _. call >>= λ _. pure rows)
        (started.after) e₁ in
    let (completed, e₃) =
      bind_inv (finish_run (started.value) (worked.value)) (λ _. call >>= λ _. pure (worked.value))
        (worked.after) e₂ in
    let (committed, e₄) = bind_inv call (λ _. pure (worked.value)) (completed.after) e₃ in
    (
      started.after,
      worked,
      Passed-keep but_runs (start_run name)
          (start_run-Keeps (λ t. but_runs t ≡ but_runs w.tables) (λ t runs h. h) name) started,
      ap (λ x. but_runs (tables_of x)) (sym e₄)
          ∙ ap but_runs (Passed-call-tables committed)
          ∙ Passed-keep but_runs (finish_run (started.value) (worked.value))
              (finish_run-Keeps (λ t. but_runs t ≡ but_runs worked.after.tables) (λ t runs h. h)
                (started.value) (worked.value))
              completed,
    )
