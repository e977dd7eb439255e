-- ===== src/Store/Links/Ids.antt =====
-- The ids of a user's links: each stands once in the order, and renumbering by any such list sets
-- the order.
use mathlib.Core.List.{Permᴰ}
use mathlib.Core.List.Permᴰ
use link_nest.Base.{
  ℕ, ◌≡◌, ◌≢◌, refl, ◌∙◌, Bool, List, [], ◌∷◌, map, All, Distinct, Bool-cases, inl, inr,
}
use link_nest.Store.World.{LinkRow, Tables}
use link_nest.Store.Links.{Key, owned, keys, remove_if, ordered_ids}
use link_nest.Store.Links.Order.{sort_keys-perm, Distinct-perm, map-perm}
use link_nest.Store.Links.Placing.{place_all, sort_keys-place_all}
use link_nest.Store.Links.Isolation.{Renumbered, of_user, of_user-place_all, content-place_all}

-- No two links have the same id: it is the primary key.
abbrev pub DistinctIds : List LinkRow → Type 0
DistinctIds rows = Distinct (map (λ (r : LinkRow). r.link.id) rows)

All-keys :
    (u x : ℕ) (rows : List LinkRow)
    → All (λ y. x ≢ y) (map (λ (r : LinkRow). r.link.id) rows)
    → All (λ y. x ≢ y) (map (λ (k : Key). k.1) (keys u rows))
unfolding keys
All-keys u x [] h = tt
All-keys u x (r ∷ rows) (n, h) = elim (Bool-cases (owned u r)) [
  | inl e ↦ rw e (n, All-keys u x rows h)
  | inr e ↦ rw e (All-keys u x rows h)
]

Distinct-keys :
    (u : ℕ) (rows : List LinkRow)
    → DistinctIds rows
    → Distinct (map (λ (k : Key). k.1) (keys u rows))
unfolding keys
Distinct-keys u [] h = tt
Distinct-keys u (r ∷ rows) (n, h) = elim (Bool-cases (owned u r)) [
  | inl e ↦ rw e (All-keys u r.link.id rows n, Distinct-keys u rows h)
  | inr e ↦ rw e (Distinct-keys u rows h)
]

-- The ids of a user's links, in order, are each once and are those of the table.
pub ordered_ids-perm :
    (u : ℕ) (rows : List LinkRow)
    → Permᴰ (map (λ (k : Key). k.1) (keys u rows)) (ordered_ids u rows)
unfolding ordered_ids
ordered_ids-perm u rows = map-perm _ (Permᴰ.symm (sort_keys-perm (keys u rows)))

pub ordered_ids-Distinct :
    (u : ℕ) (rows : List LinkRow) → DistinctIds rows → Distinct (ordered_ids u rows)
ordered_ids-Distinct u rows h =
    Distinct-perm (Permᴰ.symm (ordered_ids-perm u rows)) (Distinct-keys u rows h)

All-remove_if :
    (f : LinkRow → Bool) (x : ℕ) (rows : List LinkRow)
    → All (λ y. x ≢ y) (map (λ (r : LinkRow). r.link.id) rows)
    → All (λ y. x ≢ y) (map (λ (r : LinkRow). r.link.id) (remove_if f rows))
unfolding remove_if
All-remove_if f x [] h = tt
All-remove_if f x (r ∷ rows) (n, h) = elim (Bool-cases (f r)) [
  | inl e ↦ rw e (All-remove_if f x rows h)
  | inr e ↦ rw e (n, All-remove_if f x rows h)
]

pub DistinctIds-remove_if :
    (f : LinkRow → Bool) (rows : List LinkRow) → DistinctIds rows → DistinctIds (remove_if f rows)
unfolding remove_if
DistinctIds-remove_if f [] h = tt
DistinctIds-remove_if f (r ∷ rows) (n, h) = elim (Bool-cases (f r)) [
  | inl e ↦ rw e (DistinctIds-remove_if f rows h)
  | inr e ↦ rw e (All-remove_if f r.link.id rows n, DistinctIds-remove_if f rows h)
]

pub Renumbered-place_all :
    (u : ℕ) (ids : List ℕ) (links : List LinkRow) (before : Tables)
    → Permᴰ (map (λ (k : Key). k.1) (keys u links)) ids
    → Distinct ids
    → ((v : ℕ) → v ≢ u → of_user v links ≡ of_user v before.links)
    → Renumbered u ids links before (record before { links = place_all u 0 ids links })
Renumbered-place_all u ids links before h d others = record {
  order = sort_keys-place_all u ids links h d;
  contents = content-place_all u 0 ids links;
  others = λ v ne. of_user-place_all u v ne 0 ids links ∙ others v ne;
  users = refl;
  sessions = refl;
  click_events = refl;
  stats = refl;
}
