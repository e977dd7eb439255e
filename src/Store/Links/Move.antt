-- ===== src/Store/Links/Move.antt =====
-- What moving a link does.
use mathlib.Core.List.{Permᴰ}
use mathlib.Core.List.Permᴰ
use link_nest.Base.{ℕ, ℤ, ◌≡◌, refl, ap, Bool, List, inl, inr}
use link_nest.Models.{user, err_link_not_found, err_link_at_edge, Result, ok, err}
use link_nest.Store.World.{Tables, World}
use link_nest.Store.World.Atomic.{Unchanged, in_tx-Unchanged}
use link_nest.Store.World.Robust.{quiet, Faulted, Transacts, Transacts-of_Robust}
use link_nest.Store.Links.{ordered_ids, moved, move_link, with_links}
use link_nest.Store.Links.Order.{Distinct-perm}
use link_nest.Store.Links.Placing.{place_all}
use link_nest.Store.Links.Isolation.{Renumbered}
use link_nest.Store.Links.Ids.{
  DistinctIds, ordered_ids-perm, ordered_ids-Distinct, Renumbered-place_all,
}
use link_nest.Store.Links.Runs.{move_link-quiet, move_link-quiet_err}
use link_nest.Store.Links.Robust.{Robust-move_link}
use link_nest.Store.Links.Step.{
  Neighbours, exchanged, Chosen, Absent, AtEdge, Moved, absent, at_edge, swap, moved-Moved,
}

-- How `MoveLink` can end, on the order `ids` of the user's links.
pub data Movement (u : ℕ) (id : ℤ) (up : Bool) (w : World) (x : Result (Unit {0}) × World)
    (ids : List ℕ) : Type 0 where
  -- a driver error that was bound to come, and no change
  failed : Faulted w x → x.1.tables ≡ w.tables → Movement u id up w x ids
  -- no such link of this user
  missing :
      Absent id ids
      → x.0 ≡ err (user err_link_not_found)
      → x.1.tables ≡ w.tables
      → Movement u id up w x ids
  -- it is the first or the last already
  edge :
      AtEdge id up ids
      → x.0 ≡ err (user err_link_at_edge)
      → x.1.tables ≡ w.tables
      → Movement u id up w x ids
  -- it has changed places with its neighbour
  done :
      (n : Neighbours ids)
      → Chosen id up n
      → x.0 ≡ ok tt
      → Renumbered u (exchanged n) w.tables.links w.tables x.1.tables
      → Movement u id up w x ids

exchanged-perm : {ids : List ℕ} (n : Neighbours ids) → Permᴰ ids (exchanged n)
exchanged-perm n = rw (n.whole) (Permᴰ.append_left n.before (Permᴰ.swap refl refl))

move_link-Unchanged : (u : ℕ) (id : ℤ) (up : Bool) (w : World) → Unchanged w (move_link u id up w)
unfolding move_link
move_link-Unchanged u id up w = in_tx-Unchanged _ w

module _ (u : ℕ) (id : ℤ) (up : Bool) (w : World) (h : DistinctIds w.tables.links) where
  exchanged-Renumbered :
      (n : Neighbours (ordered_ids u w.tables.links))
      → Renumbered u
          (exchanged n)
          w.tables.links
          w.tables
          (with_links (place_all u 0 (exchanged n)) w)
  exchanged-Renumbered n =
      let perm = exchanged-perm n in
      Renumbered-place_all u (exchanged n) w.tables.links w.tables
        (Permᴰ.trans (ordered_ids-perm u w.tables.links) perm)
        (Distinct-perm (Permᴰ.symm perm) (ordered_ids-Distinct u w.tables.links h)) (λ v ne. refl)

  ended :
      {result : Result (Unit {0})} {tables : Tables}
      → (move_link u id up (quiet w)).0 ≡ result
      → (move_link u id up (quiet w)).1.tables ≡ tables
      → Transacts w (move_link u id up w) result tables
  ended =
      Transacts-of_Robust (move_link u id up) w (Robust-move_link u id up)
        (move_link-Unchanged u id up w)

  Movement-of_Moved :
      {r : Result (List ℕ)}
      → moved id up (ordered_ids u w.tables.links) ≡ r
      → Moved id up (ordered_ids u w.tables.links) r
      → Movement u id up w (move_link u id up w) (ordered_ids u w.tables.links)
  Movement-of_Moved e (absent a) =
      let run = move_link-quiet_err u id up w e in
      elim (ended (ap (λ x. x.0) run) (ap (λ x. x.1.tables) run)) [
        | inl (fault, same) ↦ failed fault same
        | inr (result, same) ↦ missing a result same
      ]
  Movement-of_Moved e (at_edge a) =
      let run = move_link-quiet_err u id up w e in
      elim (ended (ap (λ x. x.0) run) (ap (λ x. x.1.tables) run)) [
        | inl (fault, same) ↦ failed fault same
        | inr (result, same) ↦ edge a result same
      ]
  Movement-of_Moved e (swap n c) =
      let run = move_link-quiet u id up w e in
      elim (ended (ap (λ x. x.0) run) (ap (λ x. x.1.tables) run)) [
        | inl (fault, same) ↦ failed fault same
        | inr (result, new) ↦ done n c result (rw new (exchanged-Renumbered n))
      ]

-- On a table of links with distinct ids, whichever calls of the driver fail, moving ends in one of
-- four ways: with an error that the driver was bound to report, and no change; with the error that
-- there is no such link, if the user has none of this id, and no change; with the error that it is
-- at the edge, if it is the first (or last) already, and no change; or with success, and then the
-- user's links stand in the old order with this link and its neighbour exchanged, at the positions
-- 0, 1, 2, …, and nothing else has changed.
pub move_link-Movement :
    (u : ℕ) (id : ℤ) (up : Bool) (w : World)
    → DistinctIds w.tables.links
    → Movement u id up w (move_link u id up w) (ordered_ids u w.tables.links)
move_link-Movement u id up w h =
    Movement-of_Moved u id up w h refl (moved-Moved id up (ordered_ids u w.tables.links))
