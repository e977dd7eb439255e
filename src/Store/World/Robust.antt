-- ===== src/Store/World/Robust.antt =====
-- What a failing driver can do to a run: it ends the run with one of the driver's errors, or the
-- run is the same as without failures. So the methods are studied on a database that never fails.
use link_nest.Base.{
  ◌≡◌, refl, ap, sym, ◌∙◌, Bool, true, false, Option, none, some, List, [], ◌∷◌, ◌⊎◌, inl, inr,
}
use link_nest.Models.{DriverError, Error, UserError, no_rows, user, driver, Result, ok, err}
use link_nest.Store.World.{
  World, Tables, Db, pure, fail, gets, modify, check, require, ◌>>=◌, call, query, scan_rows,
  rollback, in_tx, take_fault,
}
use link_nest.Store.World.Atomic.{run-cases, bind-ok, bind-err, Unchanged}

-- The same world, where no call fails.
abbrev pub quiet : World → World
quiet w = record w { faults = [] }

abbrev pub Listed : DriverError → List (Option DriverError) → Type 0
Listed e [] = ⊥
Listed e (none ∷ fs) = Listed e fs
Listed e (some d ∷ fs) = (e ≡ d) ⊎ Listed e fs

-- An error, read as the result of another method.
abbrev fault_of : {A : Type 0} (B : Type 0) → Result A → Result B
fault_of B (ok a) = err (driver no_rows)
fault_of B (err e) = err e

module _ {A : Type 0} where
  -- The run returned an error that the driver was bound to report.
  abbrev pub Faulted : World → Result A × World → Type 0
  Faulted w x = (e : DriverError) × Listed e w.faults × (x.0 ≡ err (driver e))

  -- The run `x` from `w`, against the run `q` without failures.
  pub record Survives (w : World) (x q : Result A × World) : Type 0 where
    pub fewer : (e : DriverError) → Listed e x.1.faults → Listed e w.faults
    pub outcome : Faulted w x ⊎ (q ≡ (x.0, quiet x.1))

  abbrev pub Robust : Db A → Type 0
  Robust m = (w : World) → Survives w (m w) (m (quiet w))

  pub Robust-pure : (a : A) → Robust (pure a)
  Robust-pure a w = record { fewer = λ e h. h; outcome = inr refl }

  pub Robust-fail : (e : Error) → Robust (fail {A = A} e)
  Robust-fail e w = record { fewer = λ d h. h; outcome = inr refl }

  pub Robust-gets : (f : World → A) → ((w : World) → f (quiet w) ≡ f w) → Robust (gets f)
  Robust-gets f same w = record { fewer = λ e h. h; outcome = inr (rw (same w)) }

pub Robust-modify : (f : World → Tables) → ((w : World) → f (quiet w) ≡ f w) → Robust (modify f)
Robust-modify f same w = record { fewer = λ e h. h; outcome = inr (rw (same w)) }

pub Robust-check : (o : Option UserError) → Robust (check o)
Robust-check none = Robust-pure tt
Robust-check (some e) = Robust-fail (user e)

pub Robust-require : (b : Bool) (e : Error) → Robust (require b e)
Robust-require true e = Robust-pure tt
Robust-require false e = Robust-fail e

take_fault-cases :
    (fs : List (Option DriverError))
    → ((take_fault fs).0 ≡ ok tt)
      ⊎ ((e : DriverError) × Listed e fs × ((take_fault fs).0 ≡ err (driver e)))
unfolding take_fault
take_fault-cases [] = inl refl
take_fault-cases (none ∷ fs) = inl refl
take_fault-cases (some d ∷ fs) = inr (d, inl refl, refl)

take_fault-fewer :
    (fs : List (Option DriverError)) (e : DriverError) → Listed e (take_fault fs).1 → Listed e fs
unfolding take_fault
take_fault-fewer [] e h = h
take_fault-fewer (none ∷ fs) e h = h
take_fault-fewer (some d ∷ fs) e h = inr h

call-quiet : (w : World) → call (quiet w) ≡ (ok tt, quiet w)
unfolding call
call-quiet w = refl

pub Robust-call : Robust call
unfolding call
Robust-call w = record {
  fewer = take_fault-fewer w.faults;
  outcome = elim (take_fault-cases w.faults) [ inl e ↦ inr (rw e refl) | inr failed ↦ inl failed ];
}

module _ {A B : Type 0} (m : Db A) (f : A → Db B) (hm : Robust m)
    (hf : (a : A) → Robust (f a)) where
  bind-Survives :
      (w : World) {a : A} {u : World}
      → m w ≡ (ok a, u)
      → m (quiet w) ≡ (ok a, quiet u)
      → Survives w ((m >>= f) w) ((m >>= f) (quiet w))
  bind-Survives w {a} {u} e q =
      let s = rw e at (hm w) in
      let t = hf a u in
      rw (bind-ok m f w e, bind-ok m f (quiet w) q)
        (record {
          fewer = λ d h. s.fewer d (t.fewer d h);
          outcome = elim (t.outcome) [
            | inl (d, listed, failed) ↦ inl (d, s.fewer d listed, failed)
            | inr same ↦ inr same
          ];
        })

  pub Robust-bind : Robust (m >>= f)
  Robust-bind w = elim (run-cases (m w)) [
    | inl (a, u, e) ↦
        let s = rw e at (hm w) in
        elim (s.outcome) [ inl (d, listed, failed) ↦ cc | inr q ↦ bind-Survives w e q ]
    | inr (d, u, e) ↦
        let s = rw e at (hm w) in
        rw (bind-err m f w e) (record {
          fewer = s.fewer;
          outcome = elim (s.outcome) [
            | inl (c, listed, failed) ↦ inl (c, listed, ap (fault_of B) failed)
            | inr q ↦ inr (bind-err m f (quiet w) q)
          ];
        })
  ]

module _ {A : Type 0} where
  pub Robust-scan_rows : (rows : List A) → Robust (scan_rows rows)
  unfolding scan_rows
  Robust-scan_rows [] = Robust-bind call (λ _. pure []) Robust-call (λ _. Robust-pure [])
  Robust-scan_rows (a ∷ rows) =
      Robust-bind call _ Robust-call (λ _.
        Robust-bind (scan_rows rows) _ (Robust-scan_rows rows) (λ rest. Robust-pure (a ∷ rest)))

  pub Robust-query : (f : World → List A) → ((w : World) → f (quiet w) ≡ f w) → Robust (query f)
  unfolding query
  Robust-query f same =
      Robust-bind call _ Robust-call
        (λ _. Robust-bind (gets f) _ (Robust-gets f same) (λ rows. Robust-scan_rows rows))

  rollback-Survives :
      (before : Tables) (w : World) (x q : Result A × World)
      → Survives w x q
      → Survives w (rollback before x) (rollback before q)
  unfolding rollback
  rollback-Survives before w (ok a, u) q h = record {
    fewer = h.fewer;
    outcome = elim (h.outcome) [ inl failed ↦ inl failed | inr same ↦ inr (rw same) ];
  }
  rollback-Survives before w (err e, u) q h = record {
    fewer = h.fewer;
    outcome = elim (h.outcome) [ inl failed ↦ inl failed | inr same ↦ inr (rw same) ];
  }

  pub Robust-in_tx : (body : Db A) → Robust body → Robust (in_tx body)
  unfolding in_tx
  Robust-in_tx body h =
      Robust-bind call _ Robust-call
        (λ _ w. rollback-Survives w.tables w (body w) (body (quiet w)) (h w))

-- A run of a transaction: a driver error that was bound to come, with the tables as they were, or
-- the result and the tables of the run without failures.
abbrev pub Transacts : {A : Type 0} → World → Result A × World → Result A → Tables → Type 0
Transacts w x result tables =
    (Faulted w x × (x.1.tables ≡ w.tables)) ⊎ ((x.0 ≡ result) × (x.1.tables ≡ tables))

pub Transacts-of_Robust :
    {A : Type 0} (m : Db A) (w : World) {result : Result A} {tables : Tables}
    → Robust m
    → Unchanged w (m w)
    → ((m (quiet w)).0 ≡ result)
    → ((m (quiet w)).1.tables ≡ tables)
    → Transacts w (m w) result tables
Transacts-of_Robust m w h unchanged r t = elim ((h w).outcome) [
  | inl (e, listed, failed) ↦ inl ((e, listed, failed), unchanged (driver e) failed)
  | inr same ↦ inr (
    ap (λ (x : Result _ × World). x.0) (sym same) ∙ r,
    ap (λ (x : Result _ × World). x.1.tables) (sym same) ∙ t,
  )
]
