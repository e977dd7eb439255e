-- ===== src/Store/Reach/Logged.antt =====
-- The click log holds events in the order of their ids, all below the next one to be given.
use link_nest.Base.{
  ℕ, suc, ◌<◌, ◌≤◌, sym, inl, inr, Bool, List, [], ◌∷◌, ◌++◌, arith, All, All-mp, All-append,
  Bool-cases, not,
}
use mathlib.Core.Path.{subst}
use link_nest.Platform.{Platform}
use link_nest.Models.{ClickEvent}
use link_nest.Store.World.{World}
use link_nest.Store.Links.{insert_link}
use link_nest.Store.Clicks.{seen, insert_click}
use link_nest.Store.Reads.{select}
use link_nest.Store.Rollup.{is_old}
use link_nest.Store.Reach.{Reachable, begun, next, ran, passed}
use link_nest.Store.Reach.Steady.{Rule}
use link_nest.Store.Reach.Rules.{LinkRule, ClickRule, AccountRule-apart}
use link_nest.Store.Reach.Sound.{run_op-Steady}

-- Each id is above all before it.
abbrev pub Ascends : List ClickEvent → Type 0
Ascends [] = Unit
Ascends (e ∷ es) = All (λ f. e.id < f.id) es × Ascends es

-- The next id is `n`.
pub record Logged (n : ℕ) (es : List ClickEvent) : Type 0 where
  pub ascends : Ascends es
  pub given : All (λ e. (0 < e.id) × (e.id < n)) es
  pub positive : 0 < n

abbrev pub IsLogged : World → Type 0
IsLogged w = Logged w.serials.event w.tables.click_events

Logged-le : {n m : ℕ} {es : List ClickEvent} → n ≤ m → Logged n es → Logged m es
Logged-le {n} {m} {es} le h = record {
  ascends = h.ascends;
  given = All-mp _ _ es (λ r (p, q). (p, omega arith)) (h.given);
  positive = omega (arith, h.positive);
}

instance pub IsLogged-Rule : Rule IsLogged
IsLogged-Rule = record {
  frame = λ {w} {v} same h.
      subst (λ es. Logged v.serials.event es) (sym (same.click_events))
        (subst (λ n. Logged n w.tables.click_events) (sym (same.event)) h);
  back = λ le h. Logged-le (le.event) h;
}

pub IsLogged-LinkRule : (u : ℕ) → LinkRule IsLogged u
unfolding insert_link
IsLogged-LinkRule u = record {
  insert = λ title url position public w h. h;
  edit = λ id title url public w h. h;
  place = λ id i w h. h;
  remove = λ id w h. h;
}

Ascends-append :
    (es : List ClickEvent) (e : ClickEvent)
    → Ascends es
    → All (λ (f : ClickEvent). f.id < e.id) es
    → Ascends (es ++ e ∷ [])
Ascends-append [] e a h = (tt, tt)
Ascends-append (f ∷ es) e (b, a) (lt, h) =
    (All-append _ es (e ∷ []) b (lt, tt), Ascends-append es e a h)

pub All-select_kept :
    {A : Type 0} (P : A → Type 0) (f : A → Bool) (xs : List A) → All P xs → All P (select f xs)
unfolding select
All-select_kept P f [] h = tt
All-select_kept P f (x ∷ xs) (p, h) = elim (Bool-cases (f x)) [
  | inl e ↦ rw e (p, All-select_kept P f xs h)
  | inr e ↦ rw e (All-select_kept P f xs h)
]

pub Ascends-select :
    (f : ClickEvent → Bool) (es : List ClickEvent) → Ascends es → Ascends (select f es)
unfolding select
Ascends-select f [] a = tt
Ascends-select f (e ∷ es) (b, a) = elim (Bool-cases (f e)) [
  | inl k ↦ rw k (All-select_kept _ f es b, Ascends-select f es a)
  | inr k ↦ rw k (Ascends-select f es a)
]

module _ (n : ℕ) (es : List ClickEvent) (e : ClickEvent) where
  Logged-append : Logged n es → Logged (suc n) (es ++ record e { id = n } ∷ [])
  Logged-append h = record {
    ascends = Ascends-append es _ (h.ascends) (All-mp _ _ es (λ f (p, q). q) (h.given));
    given =
        All-append _ es _ (All-mp _ _ es (λ f (p, q). (p, omega arith)) (h.given))
          ((h.positive, omega arith), tt);
    positive = omega arith;
  }

log-IsLogged :
    (p : Platform) (e : ClickEvent) (w : World) → IsLogged w → IsLogged (insert_click p e w).1
unfolding insert_click
log-IsLogged p e w h = elim (Bool-cases (seen p e.idempotency_key w.tables.click_events)) [
  | inl k ↦ rw k (Logged-le (omega arith) h)
  | inr k ↦ rw k (Logged-append w.serials.event w.tables.click_events e h)
]

pub IsLogged-ClickRule : ClickRule IsLogged
IsLogged-ClickRule = record {
  log = log-IsLogged;
  bump = λ l w h. h;
  clean = λ days w h. record {
    ascends = Ascends-select (λ e. not (is_old days w.now e)) w.tables.click_events (h.ascends);
    given = All-select_kept _ (λ e. not (is_old days w.now e)) w.tables.click_events (h.given);
    positive = h.positive;
  };
}

-- In every state that calls of the store lead to from the empty database, in any order, whichever
-- calls of the driver fail and however time passes: the click log is in the order of its ids, no id
-- occurs twice, and each is positive and below the next one to be given.
pub Reachable-IsLogged : (p : Platform) {w : World} → Reachable p w → IsLogged w
Reachable-IsLogged p (begun now faults) = record {
  ascends = tt;
  given = tt;
  positive = omega arith;
}
Reachable-IsLogged p (next {w} r (ran o)) =
    (run_op-Steady p (AccountRule-apart p IsLogged (λ n users w h. h)) IsLogged-ClickRule o
      (λ u _. IsLogged-LinkRule u) w (Reachable-IsLogged p r)).1
Reachable-IsLogged p (next {w} r (passed now faults)) =
    let h = Reachable-IsLogged p r in
    record { ascends = h.ascends; given = h.given; positive = h.positive }
