-- ===== src/Store/Reach/Numbered.antt =====
-- The links have ids of their own, below the next one to be given.
use link_nest.Base.{
  ℕ, ℤ, ◌<◌, ◌≤◌, ◌≡◌, ◌≢◌, refl, sym, inl, inr, Bool, List, [], ◌∷◌, ◌++◌, map, arith, All, All-mp,
  All-append, Bool-cases,
}
use mathlib.Core.Path.{subst}
use link_nest.Text.{Text}
use link_nest.Platform.{Platform}
use link_nest.Models.{ClickEvent}
use link_nest.Store.World.{LinkRow, World}
use link_nest.Store.Links.{insert_link, edited, names_link, placed, remove_if}
use link_nest.Store.Links.Ids.{DistinctIds, DistinctIds-remove_if}
use link_nest.Store.Clicks.{seen, insert_click, bumped}
use link_nest.Store.Reach.Steady.{Rule}
use link_nest.Store.Reach.Rules.{LinkRule, ClickRule}

-- The next id is `n`.
pub record Numbered (n : ℕ) (rows : List LinkRow) : Type 0 where
  pub distinct : DistinctIds rows
  pub given : All (λ (r : LinkRow). (0 < r.link.id) × (r.link.id < n)) rows
  pub positive : 0 < n

Numbered-le : {n m : ℕ} {rows : List LinkRow} → n ≤ m → Numbered n rows → Numbered m rows
Numbered-le {n} {m} {rows} le h = record {
  distinct = h.distinct;
  given = All-mp _ _ rows (λ r (p, q). (p, omega arith)) (h.given);
  positive = omega (arith, h.positive);
}

abbrev pub IsNumbered : World → Type 0
IsNumbered w = Numbered w.serials.link w.tables.links

instance pub IsNumbered-Rule : Rule IsNumbered
IsNumbered-Rule = record {
  frame = λ {w} {v} same h.
      subst (λ rows. Numbered v.serials.link rows) (sym (same.links))
        (subst (λ n. Numbered n w.tables.links) (sym (same.link)) h);
  back = λ le h. Numbered-le (le.link) h;
}

map-ids :
    (f : LinkRow → LinkRow) (same : (r : LinkRow) → (f r).link.id ≡ r.link.id) (rows : List LinkRow)
    → map (λ (r : LinkRow). r.link.id) (map f rows) ≡ map (λ (r : LinkRow). r.link.id) rows
map-ids f same [] = refl
map-ids f same (r ∷ rows) = rw (same r, map-ids f same rows) refl

Numbered-map :
    (f : LinkRow → LinkRow) (same : (r : LinkRow) → (f r).link.id ≡ r.link.id) {n : ℕ}
    (rows : List LinkRow)
    → Numbered n rows
    → Numbered n (map f rows)
Numbered-map f same {n} rows h = record {
  distinct = rw (map-ids f same rows) (h.distinct);
  given = All-given rows (h.given);
  positive = h.positive;
}
  where
    All-given :
        (rows : List LinkRow)
        → All (λ (r : LinkRow). (0 < r.link.id) × (r.link.id < n)) rows
        → All (λ (r : LinkRow). (0 < r.link.id) × (r.link.id < n)) (map f rows)
    All-given [] h = tt
    All-given (r ∷ rows) (p, h) = (rw (same r) p, All-given rows h)

All-apart :
    (x : ℕ) (rows : List LinkRow)
    → All (λ (r : LinkRow). (0 < r.link.id) × (r.link.id < x)) rows
    → All (λ y. y ≢ x) (map (λ (r : LinkRow). r.link.id) rows)
All-apart x [] h = tt
All-apart x (r ∷ rows) ((p, q), h) = (omega arith, All-apart x rows h)

DistinctIds-append :
    (rows : List LinkRow) (r : LinkRow)
    → DistinctIds rows
    → All (λ y. y ≢ r.link.id) (map (λ (r : LinkRow). r.link.id) rows)
    → DistinctIds (rows ++ r ∷ [])
DistinctIds-append [] r d a = (tt, tt)
DistinctIds-append (q ∷ rows) r (n, d) (ne, a) = (apart rows n ne, DistinctIds-append rows r d a)
  where
    apart :
        (rows : List LinkRow)
        → All (λ y. q.link.id ≢ y) (map (λ (r : LinkRow). r.link.id) rows)
        → q.link.id ≢ r.link.id
        → All (λ y. q.link.id ≢ y) (map (λ (r : LinkRow). r.link.id) (rows ++ r ∷ []))
    apart [] n ne = (ne, tt)
    apart (s ∷ rows) (m, n) ne = (m, apart rows n ne)

edited-id :
    (u : ℕ) (id : ℤ) (title url : Text) (public : Bool) (now : ℕ) (r : LinkRow)
    → (edited u id title url public now r).link.id ≡ r.link.id
unfolding edited
edited-id u id title url public now r = ground arith

placed-id : (u id i : ℕ) (r : LinkRow) → (placed u id i r).link.id ≡ r.link.id
unfolding placed
placed-id u id i r = ground arith

All-remove_if :
    (P : LinkRow → Type 0) (f : LinkRow → Bool) (rows : List LinkRow)
    → All P rows
    → All P (remove_if f rows)
unfolding remove_if
All-remove_if P f [] h = tt
All-remove_if P f (r ∷ rows) (p, h) = elim (Bool-cases (f r)) [
  | inl e ↦ rw e (All-remove_if P f rows h)
  | inr e ↦ rw e (p, All-remove_if P f rows h)
]

Numbered-remove_if :
    (f : LinkRow → Bool) {n : ℕ} (rows : List LinkRow)
    → Numbered n rows
    → Numbered n (remove_if f rows)
Numbered-remove_if f {n} rows h = record {
  distinct = DistinctIds-remove_if f rows (h.distinct);
  given = All-remove_if _ f rows (h.given);
  positive = h.positive;
}

insert-IsNumbered :
    (u : ℕ) (title url : Text) (position : ℕ) (public : Bool) (w : World)
    → IsNumbered w
    → IsNumbered (insert_link u title url position public w).1
unfolding insert_link
insert-IsNumbered u title url position public w h = record {
  distinct =
      DistinctIds-append w.tables.links _ (h.distinct)
        (All-apart w.serials.link w.tables.links (h.given));
  given =
      All-append _ w.tables.links _
        (All-mp _ _ w.tables.links (λ r (p, q). (p, omega arith)) (h.given))
        ((h.positive, omega arith), tt);
  positive = omega arith;
}

pub IsNumbered-LinkRule : (u : ℕ) → LinkRule IsNumbered u
IsNumbered-LinkRule u = record {
  insert = insert-IsNumbered u;
  edit = λ id title url public w h.
      Numbered-map (edited u id title url public w.now) (edited-id u id title url public w.now)
        w.tables.links h;
  place = λ id i w h. Numbered-map (placed u id i) (placed-id u id i) w.tables.links h;
  remove = λ id w h. Numbered-remove_if (names_link u id) w.tables.links h;
}

bumped-id : (l : ℕ) (r : LinkRow) → (bumped l r).link.id ≡ r.link.id
unfolding bumped
bumped-id l r = ground arith

log-IsNumbered :
    (p : Platform) (e : ClickEvent) (w : World) → IsNumbered w → IsNumbered (insert_click p e w).1
unfolding insert_click
log-IsNumbered p e w h = elim (Bool-cases (seen p e.idempotency_key w.tables.click_events)) [
  | inl k ↦ rw k h
  | inr k ↦ rw k h
]

pub IsNumbered-ClickRule : ClickRule IsNumbered
IsNumbered-ClickRule = record {
  log = log-IsNumbered;
  bump = λ l w h. Numbered-map (bumped l) (bumped-id l) w.tables.links h;
  clean = λ days w h. h;
}
