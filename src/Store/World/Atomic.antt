-- ===== src/Store/World/Atomic.antt =====
-- How a run ends, and that a transaction that fails leaves the tables as they were.
use link_nest.Base.{◌≡◌, refl, ap, sym, ◌∙◌, ◌⊎◌, inl, inr}
use link_nest.Models.{Error, Result, ok, err}
use link_nest.Store.World.{World, Db, ◌>>=◌, call, rollback, in_tx}

module _ {A : Type 0} where
  -- The run returned a value, or an error.
  abbrev pub Ended : Result A × World → Type 0
  Ended x =
      ((a : A) × (w : World) × (x ≡ (ok a, w))) ⊎ ((e : Error) × (w : World) × (x ≡ (err e, w)))

  pub run-cases : (x : Result A × World) → Ended x
  run-cases (ok a, w) = inl (a, w, refl)
  run-cases (err e, w) = inr (e, w, refl)

module _ {A B : Type 0} (m : Db A) (f : A → Db B) (w : World) where
  pub bind-ok : {a : A} {w' : World} → m w ≡ (ok a, w') → (m >>= f) w ≡ f a w'
  bind-ok {a} {w'} e = ap (λ (x : Result A × World). bound x) e
    where
      bound : Result A × World → Result B × World
      bound x = let (r, u) = x in elim r [ ok b ↦ f b u | err d ↦ (err d, u) ]

  pub bind-err : {e : Error} {w' : World} → m w ≡ (err e, w') → (m >>= f) w ≡ (err e, w')
  bind-err {e} {w'} h = ap (λ (x : Result A × World). bound x) h
    where
      bound : Result A × World → Result B × World
      bound x = let (r, u) = x in elim r [ ok b ↦ f b u | err d ↦ (err d, u) ]

-- A failed run has left the tables as they were.
abbrev pub Unchanged : {A : Type 0} → World → Result A × World → Type 0
Unchanged w x = (e : Error) → x.0 ≡ err e → x.1.tables ≡ w.tables

pub call-tables : (w : World) → (call w).1.tables ≡ w.tables
unfolding call
call-tables w = refl

rollback-Unchanged :
    {A : Type 0} (w : World) (x : Result A × World) → Unchanged w (rollback w.tables x)
unfolding rollback
rollback-Unchanged w (ok a, u) e h = cc
rollback-Unchanged w (err e, u) e' h = refl

-- Whatever the body does and whichever call fails: a transaction that returns an error leaves the
-- tables as they were.
pub in_tx-Unchanged : {A : Type 0} (body : Db A) (w : World) → Unchanged w (in_tx body w)
unfolding in_tx
in_tx-Unchanged body w e h = elim (run-cases (call w)) [
  | inl (a, u, began) ↦
      let tables : u.tables ≡ w.tables =
        ap (λ (x : Result (Unit {0}) × World). x.1.tables) (sym began) ∙ call-tables w in
      let run = bind-ok call (λ _ v. rollback v.tables (body v)) w began in
      ap (λ (x : Result _ × World). x.1.tables) run
      ∙ rollback-Unchanged u (body u) e (ap (λ (x : Result _ × World). x.0) (sym run) ∙ h)
      ∙ tables
  | inr (e', u, failed) ↦
      ap (λ (x : Result _ × World). x.1.tables)
        (bind-err call (λ _ v. rollback v.tables (body v)) w failed)
      ∙ ap (λ (x : Result (Unit {0}) × World). x.1.tables) (sym failed)
      ∙ call-tables w
]
