-- ===== src/Store/Links/Robust.antt =====
-- A failing driver only cuts the methods on links short.
use link_nest.Base.{ℕ, ℤ, suc, refl, Bool, List, [], ◌∷◌, map, not, ◌==◌, inr}
use link_nest.Text.{Text}
use link_nest.Text.Utf8.{trim_space}
use link_nest.Platform.{Platform}
use link_nest.Models.{user, err_link_not_found, Result, ok, err}
use link_nest.Store.World.{call, gets, modify, check}
use link_nest.Store.World.Robust.{
  Robust, Robust-pure, Robust-fail, Robust-gets, Robust-modify, Robust-check, Robust-require,
  Robust-call, Robust-bind, Robust-query, Robust-in_tx,
}
use link_nest.Store.Validate.{validate_link}
use link_nest.Store.Links.{
  next_position, insert_link, create_link, require_row, with_links, count_if, ordered_link_ids,
  placed, write_positions_from, write_positions, renumber, remove_if, delete_link, moved, lift,
  move_link, names_link,
}

Robust-require_row : (n : ℕ) → Robust (require_row n)
unfolding require_row
Robust-require_row n =
    Robust-bind call _ Robust-call (λ _. Robust-require (not (n == 0)) (user err_link_not_found))

Robust-ordered_link_ids : (u : ℕ) → Robust (ordered_link_ids u)
unfolding ordered_link_ids
Robust-ordered_link_ids u = Robust-query _ (λ w. refl)

Robust-write_positions_from : (u i : ℕ) (ids : List ℕ) → Robust (write_positions_from u i ids)
unfolding write_positions_from
Robust-write_positions_from u i [] = Robust-pure tt
Robust-write_positions_from u i (id ∷ ids) = Robust-bind call _ Robust-call (λ _.
    Robust-bind (modify (λ w. with_links (map (placed u id i)) w)) _ (Robust-modify _ (λ w. refl))
      (λ _. Robust-write_positions_from u (suc i) ids))

Robust-write_positions : (u : ℕ) (ids : List ℕ) → Robust (write_positions u ids)
unfolding write_positions
Robust-write_positions u ids = Robust-write_positions_from u 0 ids

Robust-renumber : (u : ℕ) → Robust (renumber u)
unfolding renumber
Robust-renumber u =
    Robust-bind (ordered_link_ids u) _ (Robust-ordered_link_ids u)
      (λ ids. Robust-write_positions u ids)

Robust-lift : {A : Type 0} (r : Result A) → Robust (lift r)
Robust-lift (ok a) = Robust-pure a
Robust-lift (err e) = Robust-fail e

pub Robust-delete_link : (u : ℕ) (id : ℤ) → Robust (delete_link u id)
unfolding delete_link
Robust-delete_link u id = Robust-in_tx _ (
    Robust-bind call _ Robust-call (λ _.
      Robust-bind (gets (λ w. count_if (names_link u id) w.tables.links)) _
        (Robust-gets _ (λ w. refl))
        (λ n.
          Robust-bind (modify (λ w. with_links (remove_if (names_link u id)) w)) _
            (Robust-modify _ (λ w. refl))
            (λ _.
              Robust-bind (require_row n) _ (Robust-require_row n)
                (λ _. Robust-bind (renumber u) _ (Robust-renumber u) (λ _. Robust-call))))))

pub Robust-move_link : (u : ℕ) (id : ℤ) (up : Bool) → Robust (move_link u id up)
unfolding move_link
Robust-move_link u id up = Robust-in_tx _ (
    Robust-bind (ordered_link_ids u) _ (Robust-ordered_link_ids u) (λ ids.
      Robust-bind (lift (moved id up ids)) _ (Robust-lift (moved id up ids)) (λ ids'.
        Robust-bind (write_positions u ids') _ (Robust-write_positions u ids') (λ _. Robust-call))))

Robust-insert_link :
    (u : ℕ) (title url : Text) (position : ℕ) (public : Bool)
    → Robust (insert_link u title url position public)
unfolding insert_link
Robust-insert_link u title url position public w = record { fewer = λ e h. h; outcome = inr refl }

pub Robust-create_link :
    (p : Platform) (u : ℕ) (title url : Text) (public : Bool)
    → Robust (create_link p u title url public)
unfolding create_link
Robust-create_link p u title url public =
    let title' = trim_space title in
    let url' = trim_space url in
    Robust-bind (check (validate_link p title' url')) _ (Robust-check (validate_link p title' url'))
      (λ _. Robust-in_tx _ (
        Robust-bind call _ Robust-call (λ _.
          Robust-bind (gets (λ w. next_position u w.tables.links)) _ (Robust-gets _ (λ w. refl))
            (λ position. Robust-bind call _ Robust-call (λ _.
              Robust-bind (insert_link u title' url' position public) _
                (Robust-insert_link u title' url' position public) (λ _. Robust-call))))))
