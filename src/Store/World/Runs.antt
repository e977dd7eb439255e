-- ===== src/Store/World/Runs.antt =====
-- Taking runs apart: what a run that succeeded has passed through, and what every run keeps.
use link_nest.Base.{◌≡◌, refl, ap, sym, ◌∙◌, inl, inr, List, [], ◌∷◌, Option, none, some}
use mathlib.Core.Path.{subst}
use link_nest.Models.{UserError, Result, ok, err, ok-inj, err-ok}
use link_nest.Store.World.{
  Tables, World, Db, ◌>>=◌, call, check, pure, gets, query, scan_rows, rollback, in_tx,
}
use link_nest.Store.World.Atomic.{Ended, run-cases, bind-ok, bind-err, call-tables}

-- A run of `m` that succeeds with `a`, and ends in `w'`.
pub record Passed {A : Type 0} (m : Db A) (w : World) : Type 0 where
  pub value : A
  pub after : World
  pub run : m w ≡ (ok value, after)

module _ {A B : Type 0} (m : Db A) (f : A → Db B) (w : World) where
  pub bind_inv :
      {b : B} {v : World}
      → (m >>= f) w ≡ (ok b, v)
      → (s : Passed m w) × (f s.value s.after ≡ (ok b, v))
  bind_inv {b} {v} done = elim (run-cases (m w)) [
    | inl (a, u, e) ↦ (record { value = a; after = u; run = e }, sym (bind-ok m f w e) ∙ done)
    | inr (d, u, e) ↦
        let clash : err d ≡ ok b =
          ap (λ (x : Result B × World). x.0) (sym (bind-err m f w e) ∙ done) in
        cc
  ]

pub Passed-call-tables : {w : World} (s : Passed call w) → s.after.tables ≡ w.tables
Passed-call-tables {w} s =
    ap (λ (x : Result (Unit {0}) × World). x.1.tables) (sym (s.run)) ∙ call-tables w

call-now : (w : World) → (call w).1.now ≡ w.now
unfolding call
call-now w = refl

pub Passed-call-now : {w : World} (s : Passed call w) → s.after.now ≡ w.now
Passed-call-now {w} s = ap (λ (x : Result (Unit {0}) × World). x.1.now) (sym (s.run)) ∙ call-now w

module _ {A : Type 0} where
  scan_rows-ok :
      (rows found : List A) (w v : World) → scan_rows rows w ≡ (ok found, v) → found ≡ rows
  unfolding scan_rows
  scan_rows-ok [] found w v done =
      let (began, e) = bind_inv call (λ _. pure []) w done in
      sym (ok-inj (ap (λ (x : Result (List A) × World). x.0) e))
  scan_rows-ok (a ∷ rows) found w v done =
      let (began, e) = bind_inv call (λ _. scan_rows rows >>= λ rest. pure (a ∷ rest)) w done in
      let (rest, e') = bind_inv (scan_rows rows) (λ rest. pure (a ∷ rest)) (began.after) e in
      sym (ok-inj (ap (λ (x : Result (List A) × World). x.0) e'))
      ∙ ap (λ r. a ∷ r) (scan_rows-ok rows (rest.value) (began.after) (rest.after) (rest.run))

  -- A query that succeeds returns the rows of the tables as they are.
  pub query-ok :
      (f : Tables → List A) (found : List A) (w v : World)
      → query (λ x. f x.tables) w ≡ (ok found, v)
      → found ≡ f w.tables
  unfolding query
  query-ok f found w v done =
      let read : Db (List A) = gets (λ x. f x.tables) >>= scan_rows in
      let (began, e) = bind_inv call (λ _. read) w done in
      scan_rows-ok (f began.after.tables) found (began.after) v e ∙ ap f (Passed-call-tables began)

rollback-ok :
    {A : Type 0} (before : Tables) (x : Result A × World) (a : A) (v : World)
    → rollback before x ≡ (ok a, v)
    → x ≡ (ok a, v)
unfolding rollback
rollback-ok before (ok b, w) a v e = e
rollback-ok before (err d, w) a v e = absurd (err-ok (ap (λ (x : Result _ × World). x.0) e))

-- A transaction that succeeds has run its body.
pub record Began {A : Type 0} (body : Db A) (w : World) (r : Result A × World) : Type 0 where
  pub start : World
  pub tables : start.tables ≡ w.tables
  pub run : body start ≡ r

pub in_tx-ok :
    {A : Type 0} (body : Db A) (w : World) (a : A) (v : World)
    → in_tx body w ≡ (ok a, v)
    → Began body w (ok a, v)
unfolding in_tx
in_tx-ok body w a v done =
    let (s, e) = bind_inv call (λ _ x. rollback x.tables (body x)) w done in
    record {
      start = s.after;
      tables = Passed-call-tables s;
      run = rollback-ok s.after.tables (body (s.after)) a v e;
    }

-- Every run keeps a property of the tables, whether it succeeds or not.
pub record Keeps {A : Type 0} (P : Tables → Type 0) (m : Db A) : Type 0 where
  pub keep : (w : World) → P w.tables → P (m w).1.tables

module _ (P : Tables → Type 0) where
  pub Keeps-bind :
      {A B : Type 0} (m : Db A) (f : A → Db B)
      → Keeps P m
      → ((a : A) → Keeps P (f a))
      → Keeps P (m >>= f)
  Keeps-bind {A} {B} m f first then = record { keep = λ w h. go w h (run-cases (m w)) }
    where
      go : (w : World) → P w.tables → Ended (m w) → P ((m >>= f) w).1.tables
      go w h (inl (a, u, e)) =
          subst (λ (x : Result B × World). P x.1.tables) (sym (bind-ok m f w e))
            ((then a).keep u (subst (λ (x : Result A × World). P x.1.tables) e (first.keep w h)))
      go w h (inr (d, u, e)) =
          subst (λ (x : Result B × World). P x.1.tables) (sym (bind-err m f w e))
            (subst (λ (x : Result A × World). P x.1.tables) e (first.keep w h))

  pub Keeps-call : Keeps P call
  Keeps-call = record { keep = λ w h. subst P (sym (call-tables w)) h }

  pub Keeps-check : (o : Option UserError) → Keeps P (check o)
  Keeps-check none = record { keep = λ w h. h }
  Keeps-check (some e) = record { keep = λ w h. h }

  pub Keeps-lift : {A : Type 0} (r : Result A) → Keeps P (λ w. (r, w))
  Keeps-lift r = record { keep = λ w h. h }

  Keeps-scan_rows : {A : Type 0} (rows : List A) → Keeps P (scan_rows rows)
  unfolding scan_rows
  Keeps-scan_rows [] = Keeps-bind call (λ _. pure []) Keeps-call (λ _. Keeps-lift (ok []))
  Keeps-scan_rows (a ∷ rows) =
      Keeps-bind call (λ _. scan_rows rows >>= λ rest. pure (a ∷ rest)) Keeps-call
        (λ _.
          Keeps-bind (scan_rows rows) (λ rest. pure (a ∷ rest)) (Keeps-scan_rows rows)
            (λ rest. Keeps-lift (ok (a ∷ rest))))

  pub Keeps-query : {A : Type 0} (f : World → List A) → Keeps P (query f)
  unfolding query
  Keeps-query f =
      Keeps-bind call (λ _. gets f >>= scan_rows) Keeps-call
        (λ _. Keeps-bind (gets f) scan_rows (record { keep = λ w h. h }) Keeps-scan_rows)

pub Passed-query-tables :
    {A : Type 0} (f : World → List A) (w : World)
    → (s : Passed (query f) w) → s.after.tables ≡ w.tables
Passed-query-tables {A} f w s =
    ap (λ (x : Result (List A) × World). x.1.tables) (sym (s.run))
    ∙ (Keeps-query (λ t. t ≡ w.tables) f).keep w refl
