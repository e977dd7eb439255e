-- ===== src/Store/Clicks/Open.antt =====
-- Which link a click is on: LinkForTracking of store/store.go finds a public link of an id.
use link_nest.Base.{
  ℕ, ℤ, pos, negsuc, is_nat, ◌≡◌, refl, ap, sym, ◌∙◌, ◌⊎◌, inl, inr, Bool, true, false, ◌&&◌, List,
  [], ◌∷◌, arith, ◌==◌, ==_refl, Bool-cases,
}
use mathlib.Core.List.{Memᴰ}
use link_nest.Models.{Link, Result, ok, ok-inj, err-ok}
use link_nest.Store.World.{LinkRow, World, call}
use link_nest.Store.World.Robust.{Faulted, Robust, Robust-bind, Robust-call}
use link_nest.Store.Clicks.{find_public, link_for_tracking}

-- A public link of that id.
pub record IsOpen (id : ℤ) (rows : List LinkRow) (link : Link) : Type 0 where
  pub row : LinkRow
  pub stored : Memᴰ row rows
  pub holds : row.link ≡ link
  pub is_public : link.public ≡ true
  pub named : pos link.id ≡ id

is_nat-pos : (id : ℤ) (n : ℕ) → is_nat id n ≡ true → pos n ≡ id
is_nat-pos (pos k) n h = ap (λ i. pos i) (ground arith)
is_nat-pos (negsuc k) n h = cc

both : (a b : Bool) → a && b ≡ true → (a ≡ true) × (b ≡ true)
both true b h = (refl, h)
both false b h = cc

-- What `find_public` finds is a public link of that id.
pub find_public-IsOpen :
    (id : ℤ) (rows : List LinkRow) (link : Link)
    → find_public id rows ≡ ok link
    → IsOpen id rows link
unfolding find_public
find_public-IsOpen id [] link e = absurd (err-ok e)
find_public-IsOpen id (row ∷ rows) link e =
    elim (Bool-cases (is_nat id row.link.id && row.link.public)) [
      | inl here ↦
          let same : row.link ≡ link = ok-inj (rw here at e) in
          let (n, o) = both (is_nat id row.link.id) row.link.public here in
          record {
            row = row;
            stored = Memᴰ.head refl;
            holds = same;
            is_public = ap (λ (l : Link). l.public) (sym same) ∙ o;
            named = ap (λ (l : Link). pos l.id) (sym same) ∙ is_nat-pos id row.link.id n;
          }
      | inr there ↦
          let found = find_public-IsOpen id rows link (rw there at e) in
          record {
            row = found.row;
            stored = Memᴰ.tail (found.stored);
            holds = found.holds;
            is_public = found.is_public;
            named = found.named;
          }
    ]

-- If there is one, `find_public` finds one.
found_open :
    (id : ℤ) (row : LinkRow) {rows : List LinkRow}
    → Memᴰ row rows
    → pos row.link.id ≡ id
    → row.link.public ≡ true
    → (l : Link) × (find_public id rows ≡ ok l)
unfolding find_public
found_open id row (Memᴰ.head {x} {xs} here) n o =
    let named : is_nat id x.link.id ≡ true =
      ap (λ i. is_nat i x.link.id) (sym n)
      ∙ ap (λ (s : LinkRow). x.link.id == s.link.id) here
      ∙ ==_refl x.link.id in
    let opened : x.link.public ≡ true = ap (λ (s : LinkRow). s.link.public) (sym here) ∙ o in
    (x.link, rw (named, opened) refl)
found_open id row (Memᴰ.tail {x} {xs} m) n o =
    elim (Bool-cases (is_nat id x.link.id && x.link.public)) [
      | inl here ↦ (x.link, rw here refl)
      | inr there ↦ let (l, e) = found_open id row m n o in (l, rw there e)
    ]

pub IsOpen-found :
    (id : ℤ) (rows : List LinkRow) (link : Link)
    → IsOpen id rows link
    → (l : Link) × (find_public id rows ≡ ok l)
IsOpen-found id rows link h =
    found_open id (h.row) (h.stored) (ap (λ (l : Link). pos l.id) (h.holds) ∙ h.named)
      (ap (λ (l : Link). l.public) (h.holds) ∙ h.is_public)

pub Robust-link_for_tracking : (id : ℤ) → Robust (link_for_tracking id)
unfolding link_for_tracking
Robust-link_for_tracking id =
    Robust-bind call (λ _ w. (find_public id w.tables.links, w)) Robust-call
      (λ _ w. record { fewer = λ e h. h; outcome = inr refl })

-- The link is what the tables hold, unless the driver fails.
pub link_for_tracking-found :
    (id : ℤ) (w : World)
    → Faulted w (link_for_tracking id w)
      ⊎ ((link_for_tracking id w).0 ≡ find_public id w.tables.links)
link_for_tracking-found id w = elim ((Robust-link_for_tracking id w).outcome) [
  | inl fault ↦ inl fault
  | inr run ↦
      inr (ap (λ (x : Result Link × World). x.0) (sym run) ∙ unfold link_for_tracking call in refl)
]
