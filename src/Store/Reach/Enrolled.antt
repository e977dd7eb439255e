-- ===== src/Store/Reach/Enrolled.antt =====
-- No two accounts share an email, a username or a public name, and each has an id of its own.
use link_nest.Base.{
  ℕ, ◌<◌, ◌≤◌, ◌≡◌, sym, inl, inr, List, [], ◌∷◌, ◌++◌, map, arith, All, All-mp, All-append,
  Bool-cases, Option-cases, ◌==◌,
}
use mathlib.Core.Path.{subst}
use link_nest.Text.{Text}
use link_nest.Platform.{Platform}
use link_nest.Models.{ClickEvent}
use link_nest.Store.World.{UserRow, World}
use link_nest.Store.Users.{violation, insert_user}
use link_nest.Store.Users.Unique.{Apart, Unique, Unique-append, violation-Apart}
use link_nest.Store.Links.{insert_link}
use link_nest.Store.Clicks.{seen, insert_click}
use link_nest.Store.Reach.{Reachable, begun, next, ran, passed}
use link_nest.Store.Reach.Steady.{Rule}
use link_nest.Store.Reach.Rules.{LinkRule, ClickRule, renamed, AccountRule}
use link_nest.Store.Reach.Sound.{run_op-Steady}

-- Each id is above all before it.
abbrev pub Rises : List UserRow → Type 0
Rises [] = Unit
Rises (r ∷ rows) = All (λ (s : UserRow). r.user.id < s.user.id) rows × Rises rows

-- The next id is `n`.
pub record Enrolled (p : Platform) (n : ℕ) (rows : List UserRow) : Type 0 where
  pub unique : Unique p rows
  pub rises : Rises rows
  pub given : All (λ (r : UserRow). (0 < r.user.id) × (r.user.id < n)) rows
  pub positive : 0 < n

abbrev pub IsEnrolled : Platform → World → Type 0
IsEnrolled p w = Enrolled p w.serials.user w.tables.users

module _ (p : Platform) where
  Enrolled-le : {n m : ℕ} {rows : List UserRow} → n ≤ m → Enrolled p n rows → Enrolled p m rows
  Enrolled-le {n} {m} {rows} le h = record {
    unique = h.unique;
    rises = h.rises;
    given = All-mp _ _ rows (λ r (a, b). (a, omega arith)) (h.given);
    positive = omega (arith, h.positive);
  }

  Rises-append :
      (rows : List UserRow) (s : UserRow)
      → Rises rows
      → All (λ (r : UserRow). r.user.id < s.user.id) rows
      → Rises (rows ++ s ∷ [])
  Rises-append [] s a h = (tt, tt)
  Rises-append (r ∷ rows) s (b, a) (lt, h) =
      (All-append _ rows (s ∷ []) b (lt, tt), Rises-append rows s a h)

  instance pub IsEnrolled-Rule : Rule (IsEnrolled p)
  IsEnrolled-Rule = record {
    frame = λ {w} {v} same h.
        subst (λ rows. Enrolled p v.serials.user rows) (sym (same.users))
          (subst (λ n. Enrolled p n w.tables.users) (sym (same.user)) h);
    back = λ le h. Enrolled-le (le.user) h;
  }

  pub IsEnrolled-LinkRule : (u : ℕ) → LinkRule (IsEnrolled p) u
  unfolding insert_link
  IsEnrolled-LinkRule u = record {
    insert = λ title url position public w h. h;
    edit = λ id title url public w h. h;
    place = λ id i w h. h;
    remove = λ id w h. h;
  }

  log-IsEnrolled :
      (q : Platform) (e : ClickEvent) (w : World)
      → IsEnrolled p w
      → IsEnrolled p (insert_click q e w).1
  unfolding insert_click
  log-IsEnrolled q e w h = elim (Bool-cases (seen q e.idempotency_key w.tables.click_events)) [
    | inl k ↦ rw k h
    | inr k ↦ rw k h
  ]

  pub IsEnrolled-ClickRule : ClickRule (IsEnrolled p)
  IsEnrolled-ClickRule = record { log = log-IsEnrolled; bump = λ l w h. h; clean = λ days w h. h }

  module _ (u : ℕ) (first last bio : Text) where
    abbrev f : UserRow → UserRow
    f = renamed u first last bio

    renamed-All :
        (P Q : UserRow → Type 0) (rows : List UserRow)
        → ((r : UserRow) → P r → Q (f r))
        → All P rows
        → All Q (map f rows)
    renamed-All P Q [] g h = tt
    renamed-All P Q (r ∷ rows) g (a, h) = (g r a, renamed-All P Q rows g h)

    renamed-id : (r : UserRow) → (f r).user.id ≡ r.user.id
    renamed-id r = ground arith

    Apart-renamed : (r s : UserRow) → Apart p r s → Apart p (f r) (f s)
    Apart-renamed r s (a, b, c) = elim (Bool-cases (r.user.id == u)) [
      | inl e ↦ elim (Bool-cases (s.user.id == u)) [
        | inl e' ↦ rw (e, e') (a, b, c)
        | inr e' ↦ rw (e, e') (a, b, c)
      ]
      | inr e ↦ elim (Bool-cases (s.user.id == u)) [
        | inl e' ↦ rw (e, e') (a, b, c)
        | inr e' ↦ rw (e, e') (a, b, c)
      ]
    ]

    Unique-renamed : (rows : List UserRow) → Unique p rows → Unique p (map f rows)
    Unique-renamed [] h = tt
    Unique-renamed (r ∷ rows) (a, h) =
        (renamed-All (Apart p r) (Apart p (f r)) rows (Apart-renamed r) a, Unique-renamed rows h)

    Rises-renamed : (rows : List UserRow) → Rises rows → Rises (map f rows)
    Rises-renamed [] h = tt
    Rises-renamed (r ∷ rows) (a, h) = (
      renamed-All _ _ rows (λ s lt. omega (arith, lt, renamed-id r, renamed-id s)) a,
      Rises-renamed rows h,
    )

    rename-IsEnrolled :
        (n : ℕ) (rows : List UserRow) → Enrolled p n rows → Enrolled p n (map f rows)
    rename-IsEnrolled n rows h = record {
      unique = Unique-renamed rows (h.unique);
      rises = Rises-renamed rows (h.rises);
      given = renamed-All _ _ rows (λ r (a, b). omega (arith, a, b, renamed-id r)) (h.given);
      positive = h.positive;
    }

  enrol-IsEnrolled : (r : UserRow) (w : World) → IsEnrolled p w → IsEnrolled p (insert_user p r w).1
  unfolding insert_user
  enrol-IsEnrolled r w h = elim (Option-cases (violation p r w.tables.users)) [
    | inl k ↦
        rw (k, insert_user)
          (record {
            unique =
                Unique-append p (record r { user = record (r.user) { id = w.serials.user } })
                  w.tables.users (h.unique) (violation-Apart p r w.tables.users k);
            rises =
                Rises-append w.tables.users _ (h.rises)
                  (All-mp _ _ w.tables.users (λ s (a, b). b) (h.given));
            given =
                All-append _ w.tables.users _
                  (All-mp _ _ w.tables.users (λ s (a, b). (a, omega arith)) (h.given))
                  ((h.positive, omega arith), tt);
            positive = omega arith;
          })
    | inr (e, k) ↦ rw (k, insert_user) (Enrolled-le (omega arith) h)
  ]

  pub IsEnrolled-AccountRule : AccountRule p (IsEnrolled p)
  IsEnrolled-AccountRule = record {
    enrol = enrol-IsEnrolled;
    rename =
        λ u first last bio w h. rename-IsEnrolled u first last bio w.serials.user w.tables.users h;
  }

  -- In every state that calls of the store lead to from the empty database, in any order, whichever
  -- calls of the driver fail and however time passes: no two accounts share an email, a username or
  -- a public name under the equality of the database, and the ids of the accounts are positive, all
  -- different, and below the next one to be given.
  pub Reachable-IsEnrolled : {w : World} → Reachable p w → IsEnrolled p w
  Reachable-IsEnrolled (begun now faults) = record {
    unique = tt;
    rises = tt;
    given = tt;
    positive = omega arith;
  }
  Reachable-IsEnrolled (next {w} r (ran o)) =
      (run_op-Steady p ⦃rule = IsEnrolled-Rule⦄ IsEnrolled-AccountRule IsEnrolled-ClickRule o
        (λ u _. IsEnrolled-LinkRule u) w (Reachable-IsEnrolled r)).1
  Reachable-IsEnrolled (next {w} r (passed now faults)) =
      let h = Reachable-IsEnrolled r in
      record { unique = h.unique; rises = h.rises; given = h.given; positive = h.positive }
