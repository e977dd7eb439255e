-- ===== src/Store/Links/Delete.antt =====
-- What deleting a link does.

use mathlib.Core.Path.{subst}
use native.Mathlib.Decide.{ℕ_discrete}
use link_nest.Base.{
  ℕ, ℤ, is_nat, ◌≡◌, ◌≢◌, refl, ap, ◌∙◌, ◌⊎◌, Bool, true, not, List, [], ◌∷◌, map, arith,
  if◌then◌else◌, Bool-cases, inl, inr,
}
use link_nest.Models.{user, err_link_not_found, Result, ok, err}
use link_nest.Store.World.{LinkRow, World}
use link_nest.Store.World.Atomic.{Unchanged, in_tx-Unchanged}
use link_nest.Store.World.Robust.{Faulted, Transacts-of_Robust}
use link_nest.Store.Links.{
  Key, keys, sort_keys, names_link, count_if, remove_if, ordered_ids, delete_link, with_links,
}
use link_nest.Store.Links.Keeping.{keep, sort_keys-keep}
use link_nest.Store.Links.Isolation.{Renumbered, of_user-remove_if}
use link_nest.Store.Links.Ids.{
  DistinctIds, DistinctIds-remove_if, ordered_ids-perm, ordered_ids-Distinct, Renumbered-place_all,
}
use link_nest.Store.Links.Runs.{without, delete_link-quiet, delete_link-quiet_missing}
use link_nest.Store.Links.Robust.{Robust-delete_link}

-- A list of ids with one left out.
abbrev pub erased : ℤ → List ℕ → List ℕ
erased id [] = []
erased id (x ∷ xs) = if is_nat id x then erased id xs else x ∷ erased id xs

-- The user has a link of that id.
abbrev pub Owns : ℕ → ℤ → List LinkRow → Type 0
Owns u id [] = ⊥
Owns u id (r ∷ rs) = (names_link u id r ≡ true) ⊎ Owns u id rs

other : ℤ → Key → Bool
other id k = not (is_nat id k.1)

keys-remove_if :
    (u : ℕ) (id : ℤ) (rows : List LinkRow)
    → keys u (remove_if (names_link u id) rows) ≡ keep (other id) (keys u rows)
unfolding keys remove_if keep other
keys-remove_if u id [] = refl
keys-remove_if u id (r ∷ rows) = ground (arith, keys-remove_if u id rows)

ids-keep :
    (id : ℤ) (ks : List Key)
    → map (λ (k : Key). k.1) (keep (other id) ks) ≡ erased id (map (λ (k : Key). k.1) ks)
unfolding keep other
ids-keep id [] = refl
ids-keep id (k ∷ ks) = ground (arith, ids-keep id ks)

ordered_ids-remove_if :
    (u : ℕ) (id : ℤ) (rows : List LinkRow)
    → ordered_ids u (remove_if (names_link u id) rows) ≡ erased id (ordered_ids u rows)
unfolding ordered_ids
ordered_ids-remove_if u id rows =
    ap (λ ks. map (λ (k : Key). k.1) (sort_keys ks)) (keys-remove_if u id rows)
    ∙ ap (map (λ (k : Key). k.1)) (sort_keys-keep (other id) (keys u rows))
    ∙ ids-keep id (sort_keys (keys u rows))

-- Whether the statement `DELETE … WHERE id = ? AND user_id = ?` hits a row.
Owns-of_count_if :
    (u : ℕ) (id : ℤ) (rows : List LinkRow) → count_if (names_link u id) rows ≢ 0 → Owns u id rows
unfolding count_if
Owns-of_count_if u id [] h = h refl
Owns-of_count_if u id (r ∷ rows) h = elim (Bool-cases (names_link u id r)) [
  | inl e ↦ inl e
  | inr e ↦ inr (Owns-of_count_if u id rows (λ z. h (rw e z)))
]

count_if_of_Owns :
    (u : ℕ) (id : ℤ) (rows : List LinkRow) → Owns u id rows → count_if (names_link u id) rows ≢ 0
unfolding count_if
count_if_of_Owns u id [] h = absurd h
count_if_of_Owns u id (r ∷ rows) (inl e) = rw e (omega arith)
count_if_of_Owns u id (r ∷ rows) (inr o) = elim (Bool-cases (names_link u id r)) [
  | inl e ↦ rw e (omega arith)
  | inr e ↦ rw e (count_if_of_Owns u id rows o)
]

-- How `DeleteLink` can end.
pub data Deletion (u : ℕ) (id : ℤ) (w : World) (x : Result (Unit {0}) × World) : Type 0 where
  -- a driver error that was bound to come, and no change
  failed : Faulted w x → x.1.tables ≡ w.tables → Deletion u id w x
  -- no such link of this user
  missing :
      ¬ Owns u id w.tables.links
      → x.0 ≡ err (user err_link_not_found)
      → x.1.tables ≡ w.tables
      → Deletion u id w x
  -- the link is gone, and the others keep their order at the positions 0, 1, 2, …
  done :
      Owns u id w.tables.links
      → x.0 ≡ ok tt
      → Renumbered u
          (erased id (ordered_ids u w.tables.links))
          (remove_if (names_link u id) w.tables.links)
          w.tables
          x.1.tables
      → Deletion u id w x

without-Renumbered :
    (u : ℕ) (id : ℤ) (w : World)
    → DistinctIds w.tables.links
    → Renumbered u
        (erased id (ordered_ids u w.tables.links))
        (remove_if (names_link u id) w.tables.links)
        w.tables
        (with_links (without u id) w)
without-Renumbered u id w h =
    let left = remove_if (names_link u id) w.tables.links in
    subst (λ ids. Renumbered u ids left w.tables (with_links (without u id) w))
      (ordered_ids-remove_if u id w.tables.links)
      (Renumbered-place_all u (ordered_ids u left) left w.tables (ordered_ids-perm u left)
        (ordered_ids-Distinct u left (DistinctIds-remove_if (names_link u id) w.tables.links h))
        (λ v ne. of_user-remove_if u v ne id w.tables.links))

delete_link-Unchanged : (u : ℕ) (id : ℤ) (w : World) → Unchanged w (delete_link u id w)
unfolding delete_link
delete_link-Unchanged u id w = in_tx-Unchanged _ w

-- On a table of links with distinct ids, whichever calls of the driver fail, deleting ends in one of
-- three ways: with an error that the driver was bound to report, and no change; with the error that
-- there is no such link, if the user has none of this id, and no change; or with success, and then
-- this link is gone, the user's other links keep their order at the positions 0, 1, 2, …, and nothing
-- else has changed.
pub delete_link-Deletion :
    (u : ℕ) (id : ℤ) (w : World) → DistinctIds w.tables.links → Deletion u id w (delete_link u id w)
delete_link-Deletion u id w h = elim (ℕ_discrete (count_if (names_link u id) w.tables.links) 0) [
  | yes none_hit ↦
      let run = delete_link-quiet_missing u id w none_hit in
      elim (Transacts-of_Robust (delete_link u id) w (Robust-delete_link u id)
        (delete_link-Unchanged u id w) (ap (λ x. x.0) run) (ap (λ x. x.1.tables) run)) [
          | inl (fault, same) ↦ failed fault same
          | inr (result, same) ↦
              missing (λ o. count_if_of_Owns u id w.tables.links o none_hit) result same
        ]
  | no hit ↦
      let run = delete_link-quiet u id w hit in
      elim (Transacts-of_Robust (delete_link u id) w (Robust-delete_link u id)
        (delete_link-Unchanged u id w) (ap (λ x. x.0) run) (ap (λ x. x.1.tables) run)) [
          | inl (fault, same) ↦ failed fault same
          | inr (result, new) ↦
              done (Owns-of_count_if u id w.tables.links hit) result
                (rw new (without-Renumbered u id w h))
        ]
]
