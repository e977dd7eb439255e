-- ===== src/Store/Reach/Steady.antt =====
-- Invariants of the accounts, the links and the click log, through the methods of store/store.go. A property of the
-- world gives rules for the single statements; from these it follows for whole methods.
use link_nest.Base.{
  ◌≤◌, ◌≡◌, refl, sym, inl, inr, Option, none, some, List, [], ◌∷◌, arith, Bool, true, false,
}
use mathlib.Core.Path.{subst}
use link_nest.Models.{UserError, Error, user, Result, ok, err}
use link_nest.Store.World.{
  Tables, World, Db, ◌>>=◌, pure, call, check, require, modify, gets, rollback, in_tx, query,
  scan_rows,
}
use link_nest.Store.World.Atomic.{Ended, run-cases, bind-ok, bind-err}

-- The next ids of accounts, links and clicks have not gone down.
pub record Grown (w v : World) : Type 0 where
  pub user : w.serials.user ≤ v.serials.user
  pub link : w.serials.link ≤ v.serials.link
  pub event : w.serials.event ≤ v.serials.event

-- The accounts, the links, the click log and their next ids are the same.
pub record Alike (w v : World) : Type 0 where
  pub user : v.serials.user ≡ w.serials.user
  pub users : v.tables.users ≡ w.tables.users
  pub link : v.serials.link ≡ w.serials.link
  pub event : v.serials.event ≡ w.serials.event
  pub links : v.tables.links ≡ w.tables.links
  pub click_events : v.tables.click_events ≡ w.tables.click_events

-- A property of the accounts, the links, the click log and their next ids, which a rollback does not end.
pub record Rule (I : World → Type 0) : Type 0 where
  pub frame : {w v : World} → Alike w v → I w → I v
  pub back : {w v : World} → Grown w v → I w → I (record v { tables = w.tables })

-- After the method the property `I` still holds.
pub record Steady (I : World → Type 0) {A : Type 0} (m : Db A) : Type 0 where
  pub steady : (w : World) → I w → Grown w (m w).1 × I (m w).1

Alike-Grown : {w v : World} → Alike w v → Grown w v
Alike-Grown h = record {
  user = omega (arith, h.user);
  link = omega (arith, h.link);
  event = omega (arith, h.event);
}

Grown-trans : {w u v : World} → Grown w u → Grown u v → Grown w v
Grown-trans h k = record {
  user = omega (arith, h.user, k.user);
  link = omega (arith, h.link, k.link);
  event = omega (arith, h.event, k.event);
}

abbrev SteadyAt : (World → Type 0) → {A : Type 0} → World → Result A × World → Type 0
SteadyAt I w x = Grown w x.1 × I x.1

still : (w v : World) → v.serials ≡ w.serials → Grown w v
still w v same = rw same (record { user = omega arith; link = omega arith; event = omega arith })

module _ {I : World → Type 0} where
  module _ {A B : Type 0} (m : Db A) (f : A → Db B) where
    pub Steady-bind : Steady I m → ((a : A) → Steady I (f a)) → Steady I (m >>= f)
    Steady-bind first later = record { steady = λ w h. go w h (run-cases (m w)) }
      where
        go : (w : World) → I w → Ended (m w) → SteadyAt I w ((m >>= f) w)
        go w h (inl (a, u, e)) =
            let (le, g) = subst (SteadyAt I w) e (first.steady w h) in
            let (le', g') = (later a).steady u g in
            subst (SteadyAt I w) (sym (bind-ok m f w e)) (Grown-trans le le', g')
        go w h (inr (d, u, e)) =
            subst (SteadyAt I w) (sym (bind-err m f w e))
              (subst (SteadyAt I w) e (first.steady w h))

  pub Steady-lift : {A : Type 0} (f : World → Result A) → Steady I (λ w. (f w, w))
  Steady-lift f = record { steady = λ w h. (still w w refl, h) }

  pub Steady-check : (o : Option UserError) → Steady I (check o)
  Steady-check none = Steady-lift (λ _. ok tt)
  Steady-check (some e) = Steady-lift (λ _. err (user e))

  pub Steady-require : (b : Bool) (e : Error) → Steady I (require b e)
  Steady-require true e = Steady-lift (λ _. ok tt)
  Steady-require false e = Steady-lift (λ _. err e)

  pub Steady-modify :
      (f : World → Tables)
      → ((w : World) → I w → I (record w { tables = f w }))
      → Steady I (modify f)
  Steady-modify f keep = record {
    steady = λ w h. (still w (record w { tables = f w }) refl, keep w h);
  }

  module _ ⦃rule : Rule I⦄ where
    -- A method that touches neither the accounts nor the links nor the click log nor their next ids.
    pub Steady-other : {A : Type 0} (m : Db A) → ((w : World) → Alike w (m w).1) → Steady I m
    Steady-other m same = record { steady = λ w h. (Alike-Grown (same w), rule.frame (same w) h) }

    pub Steady-call : Steady I call
    unfolding call
    Steady-call = Steady-other call (λ w. record {
      user = refl;
      users = refl;
      link = refl;
      event = refl;
      links = refl;
      click_events = refl;
    })

    Steady-scan_rows : {A : Type 0} (rows : List A) → Steady I (scan_rows rows)
    unfolding scan_rows
    Steady-scan_rows [] =
        Steady-bind call (λ _. pure []) Steady-call (λ _. Steady-lift (λ _. ok []))
    Steady-scan_rows (a ∷ rows) =
        Steady-bind call (λ _. scan_rows rows >>= λ rest. pure (a ∷ rest)) Steady-call
          (λ _.
            Steady-bind (scan_rows rows) (λ rest. pure (a ∷ rest)) (Steady-scan_rows rows)
              (λ rest. Steady-lift (λ _. ok (a ∷ rest))))

    pub Steady-query : {A : Type 0} (f : World → List A) → Steady I (query f)
    unfolding query
    Steady-query f =
        Steady-bind call (λ _. gets f >>= scan_rows) Steady-call
          (λ _. Steady-bind (gets f) scan_rows (Steady-lift (λ w. ok (f w))) Steady-scan_rows)

    -- A rollback gives the rows back, not their ids.
    pub Steady-in_tx : {A : Type 0} (body : Db A) → Steady I body → Steady I (in_tx body)
    unfolding in_tx rollback
    Steady-in_tx {A} body inside =
        Steady-bind call (λ _ w. rollback w.tables (body w)) Steady-call
          (λ _. record { steady = λ w h. back w h (body w) (inside.steady w h) })
      where
        back :
            (w : World)
            → I w
            → (x : Result A × World) → SteadyAt I w x
            → SteadyAt I w (rollback w.tables x)
        back w h (ok a, v) k = k
        back w h (err e, v) (le, k) =
            (record { user = le.user; link = le.link; event = le.event }, rule.back le h)
