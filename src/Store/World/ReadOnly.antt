-- ===== src/Store/World/ReadOnly.antt =====
-- Methods that change nothing but the faults that are still to come.
use link_nest.Base.{
  ◌≡◌, refl, ap, sym, ◌∙◌, inl, inr, Bool, true, false, List, [], ◌∷◌, if◌then◌else◌,
}
use link_nest.Models.{Result, ok}
use link_nest.Store.World.{World, Db, ◌>>=◌, pure, call, gets, query, scan_rows}
use link_nest.Store.World.Atomic.{Ended, run-cases, bind-ok, bind-err}
use link_nest.Store.World.Robust.{quiet}

pub record ReadOnly {X : Type 0} (m : World → X × World) : Type 0 where
  pub same : (w : World) → quiet (m w).1 ≡ quiet w

module _ {A B : Type 0} (m : Db A) (f : A → Db B) where
  pub ReadOnly-bind : ReadOnly m → ((a : A) → ReadOnly (f a)) → ReadOnly (m >>= f)
  ReadOnly-bind first later = record { same = λ w. go w (run-cases (m w)) }
    where
      after : {C : Type 0} → Result C × World → World
      after x = quiet x.1

      go : (w : World) → Ended (m w) → quiet ((m >>= f) w).1 ≡ quiet w
      go w (inl (a, u, e)) =
          ap after (bind-ok m f w e) ∙ (later a).same u ∙ ap after (sym e) ∙ first.same w
      go w (inr (d, u, e)) = ap after (bind-err m f w e) ∙ ap after (sym e) ∙ first.same w

pub ReadOnly-lift : {X : Type 0} (f : World → X) → ReadOnly (λ w. (f w, w))
ReadOnly-lift f = record { same = λ w. refl }

pub ReadOnly-pure : {A : Type 0} (a : A) → ReadOnly (pure a)
ReadOnly-pure a = record { same = λ w. refl }

pub ReadOnly-gets : {A : Type 0} (f : World → A) → ReadOnly (gets f)
ReadOnly-gets f = record { same = λ w. refl }

pub ReadOnly-choice :
    {X : Type 0} (b : Bool) (m n : World → X × World)
    → ReadOnly m
    → ReadOnly n
    → ReadOnly (if b then m else n)
ReadOnly-choice true m n h k = h
ReadOnly-choice false m n h k = k

pub ReadOnly-if :
    {X : Type 0} (b : Bool) (m n : World → X × World)
    → ReadOnly m
    → ReadOnly n
    → ReadOnly (λ w. if b then m w else n w)
ReadOnly-if true m n h k = h
ReadOnly-if false m n h k = k

pub ReadOnly-call : ReadOnly call
unfolding call
ReadOnly-call = record { same = λ w. refl }

ReadOnly-scan_rows : {A : Type 0} (rows : List A) → ReadOnly (scan_rows rows)
unfolding scan_rows
ReadOnly-scan_rows [] =
    ReadOnly-bind call (λ _. pure []) ReadOnly-call (λ _. ReadOnly-lift (λ _. ok []))
ReadOnly-scan_rows (a ∷ rows) =
    ReadOnly-bind call (λ _. scan_rows rows >>= λ rest. pure (a ∷ rest)) ReadOnly-call
      (λ _.
        ReadOnly-bind (scan_rows rows) (λ rest. pure (a ∷ rest)) (ReadOnly-scan_rows rows)
          (λ rest. ReadOnly-lift (λ _. ok (a ∷ rest))))

pub ReadOnly-query : {A : Type 0} (f : World → List A) → ReadOnly (query f)
unfolding query
ReadOnly-query f =
    ReadOnly-bind call (λ _. gets f >>= scan_rows) ReadOnly-call
      (λ _. ReadOnly-bind (gets f) scan_rows (ReadOnly-lift (λ w. ok (f w))) ReadOnly-scan_rows)

-- A call of the driver, and what is then read.
pub ReadOnly-read : {A : Type 0} (f : World → Result A) → ReadOnly (call >>= λ _ w. (f w, w))
ReadOnly-read f = ReadOnly-bind call (λ _ w. (f w, w)) ReadOnly-call (λ _. ReadOnly-lift f)
