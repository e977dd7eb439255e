-- ===== src/Store/Links/Placing.antt =====
-- Writing positions: after the loop over `ids` the user's links stand in that order, at the
-- positions 0, 1, 2, …
use mathlib.Core.List.{Permᴰ, Memᴰ, map-map, map-id}
use link_nest.Base.{
  ℕ, suc, ◌≡◌, ◌≢◌, refl, sym, ap, ap₂, ◌∙◌, List, [], ◌∷◌, map, arith, ◌==◌, ==_ne, ==_refl,
  if◌then◌else◌, All, All-mp, Distinct, Bool-cases, inl, inr,
}
use link_nest.Store.World.{LinkRow}
use link_nest.Store.Links.{Key, keys, placed, sort_keys}
use link_nest.Store.Links.Order.{
  enumerate, sort_keys_of_perm, sort_keys-enumerate, All-perm, map-perm,
}

-- All rounds of the loop on the table.
abbrev pub place_all : ℕ → ℕ → List ℕ → List LinkRow → List LinkRow
place_all u i [] rows = rows
place_all u i (id ∷ ids) rows = place_all u (suc i) ids (map (placed u id i) rows)

-- One round on a key.
replaced : ℕ → ℕ → Key → Key
replaced id i (p, j) = if j == id then (i, j) else (p, j)

keys-placed :
    (u id i : ℕ) (rows : List LinkRow)
    → keys u (map (placed u id i) rows) ≡ map (replaced id i) (keys u rows)
unfolding keys placed replaced
keys-placed u id i [] = refl
keys-placed u id i (r ∷ rows) = ground (arith, keys-placed u id i rows)

final : ℕ → List ℕ → Key → Key
final i [] k = k
final i (id ∷ ids) k = final (suc i) ids (replaced id i k)

keys-place_all :
    (u i : ℕ) (ids : List ℕ) (rows : List LinkRow)
    → keys u (place_all u i ids rows) ≡ map (final i ids) (keys u rows)
unfolding final
keys-place_all u i [] rows = sym (map-id (keys u rows))
keys-place_all u i (id ∷ ids) rows =
    keys-place_all u (suc i) ids (map (placed u id i) rows)
    ∙ ap (map (final (suc i) ids)) (keys-placed u id i rows)
    ∙ map-map (final (suc i) ids) (replaced id i) (keys u rows)

-- A link that the loop passes ends at a position that does not depend on where it was.
final-mem :
    {j : ℕ} (i p q : ℕ) {ids : List ℕ} → Memᴰ j ids → final i ids (p, j) ≡ final i ids (q, j)
unfolding final replaced
final-mem i p q (Memᴰ.head {x} {xs} e) = rw (e, ==_refl x)
final-mem {j} i p q (Memᴰ.tail {x} {xs} m) = elim (Bool-cases (j == x)) [
  | inl same ↦ rw same
  | inr other ↦ rw other (final-mem (suc i) p q m)
]

final_unlisted : (i p j : ℕ) (ids : List ℕ) → All (λ id. j ≢ id) ids → final i ids (p, j) ≡ (p, j)
unfolding final replaced
final_unlisted i p j [] h = refl
final_unlisted i p j (id ∷ ids) (n, h) = rw (==_ne j id n) (final_unlisted (suc i) p j ids h)

-- Where the loop from `i` over `ids` leaves the link `j`.
place : ℕ → List ℕ → ℕ → Key
place i ids j = final i ids (0, j)

map-final :
    (i : ℕ) (ids : List ℕ) (ks : List Key)
    → All (λ j. Memᴰ j ids) (map (λ (k : Key). k.1) ks)
    → map (final i ids) ks ≡ map (place i ids) (map (λ (k : Key). k.1) ks)
unfolding place
map-final i ids [] h = refl
map-final i ids ((p, j) ∷ ks) (m, h) = ap₂ (λ k l. k ∷ l) (final-mem i p 0 m) (map-final i ids ks h)

map-place-cons :
    (i id : ℕ) (ids js : List ℕ)
    → All (λ j. id ≢ j) js
    → map (place i (id ∷ ids)) js ≡ map (place (suc i) ids) js
unfolding place final replaced
map-place-cons i id ids [] h = refl
map-place-cons i id ids (j ∷ js) (n, h) =
    ap₂ (λ k l. k ∷ l) (rw (==_ne j id (λ e. n (sym e)))) (map-place-cons i id ids js h)

place-head : (i id : ℕ) (ids : List ℕ) → All (λ j. id ≢ j) ids → place i (id ∷ ids) id ≡ (i, id)
unfolding place final replaced
place-head i id ids n = rw (==_refl id) (final_unlisted (suc i) i id ids n)

map-place : (i : ℕ) (ids : List ℕ) → Distinct ids → map (place i ids) ids ≡ enumerate i ids
map-place i [] h = refl
map-place i (id ∷ ids) (n, h) =
    ap₂ (λ k l. k ∷ l) (place-head i id ids n)
      (map-place-cons i id ids ids n ∙ map-place (suc i) ids h)

All-self : {A : Type 0} (xs : List A) → All (λ x. Memᴰ x xs) xs
All-self [] = tt
All-self (x ∷ xs) = (Memᴰ.head refl, All-mp _ _ xs (λ y m. Memᴰ.tail m) (All-self xs))

-- After the loop over the ids of a user's links, each once and in any order, the links stand in the
-- order of the list and at the positions 0, 1, 2, …
pub sort_keys-place_all :
    (u : ℕ) (ids : List ℕ) (rows : List LinkRow)
    → Permᴰ (map (λ (k : Key). k.1) (keys u rows)) ids
    → Distinct ids
    → sort_keys (keys u (place_all u 0 ids rows)) ≡ enumerate 0 ids
sort_keys-place_all u ids rows h d =
    ap sort_keys
      (keys-place_all u 0 ids rows ∙ map-final 0 ids (keys u rows) (All-perm _ h (All-self ids)))
    ∙ sort_keys_of_perm (map-perm (place 0 ids) h)
    ∙ ap sort_keys (map-place 0 ids d)
    ∙ sort_keys-enumerate 0 ids
