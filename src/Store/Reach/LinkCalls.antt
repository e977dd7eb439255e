-- ===== src/Store/Reach/LinkCalls.antt =====
-- The calls on the links of a user keep an invariant that has the rules of their statements.
use link_nest.Base.{ℕ, ℤ, suc, Bool, ◌==◌, List, [], ◌∷◌, map, arith, not}
use link_nest.Text.{Text}
use link_nest.Text.Utf8.{trim_space}
use link_nest.Platform.{Platform}
use link_nest.Models.{user, err_link_not_found, ok}
use link_nest.Store.World.{
  LinkRow, World, Db, ◌>>=◌, ◌>>◌, call, check, require, modify, gets, in_tx,
}
use link_nest.Store.Validate.{validate_link}
use link_nest.Store.Links.{
  next_position, insert_link, create_link, edited, changes, count_if, require_row, with_links,
  update_link, names_link, ordered_ids, ordered_link_ids, placed, write_positions_from,
  write_positions, renumber, remove_if, delete_link, moved, lift, move_link,
}
use link_nest.Store.Reach.Steady.{
  Rule, Steady, Steady-bind, Steady-call, Steady-lift, Steady-check, Steady-require, Steady-modify,
  Steady-query, Steady-in_tx,
}
use link_nest.Store.Reach.Rules.{LinkRule}

module _ {I : World → Type 0} ⦃rule : Rule I⦄ where
  Steady-require_row : (n : ℕ) → Steady I (require_row n)
  unfolding require_row
  Steady-require_row n =
      Steady-bind call (λ _. require (not (n == 0)) (user err_link_not_found)) Steady-call
        (λ _. Steady-require (not (n == 0)) (user err_link_not_found))

  -- A statement that counts rows, changes the links, and reads the count.
  Steady-statement :
      {A : Type 0} (count : World → ℕ) (change : World → List LinkRow → List LinkRow)
      (rest : ℕ → Db A)
      → ((w : World) → I w → I (record w { tables = with_links (change w) w }))
      → ((n : ℕ) → Steady I (rest n))
      → Steady I
          (call >>= λ _. gets count >>= λ n. modify (λ w. with_links (change w) w) >>= λ _. rest n)
  Steady-statement count change rest keep after =
      Steady-bind call
        (λ _. gets count >>= λ n. modify (λ w. with_links (change w) w) >>= λ _. rest n) Steady-call
        (λ _.
          Steady-bind (gets count) (λ n. modify (λ w. with_links (change w) w) >>= λ _. rest n)
            (Steady-lift (λ w. ok (count w)))
            (λ n.
              Steady-bind (modify (λ w. with_links (change w) w)) (λ _. rest n)
                (Steady-modify (λ w. with_links (change w) w) keep) (λ _. after n)))

  pub Steady-update_link :
      (p : Platform) (u : ℕ)
      → ((id : ℤ) (title url : Text) (public : Bool) (w : World)
          → I w
          → I (record w { tables = with_links (map (edited u id title url public w.now)) w }))
      → (id : ℤ) (title url : Text) (public : Bool) → Steady I (update_link p u id title url public)
  unfolding update_link
  Steady-update_link p u edit id title url public =
      let t = trim_space title in
      let l = trim_space url in
      Steady-bind (check (validate_link p t l)) _ (Steady-check (validate_link p t l)) (λ _.
        Steady-statement (λ w. count_if (changes u id t l public w.now) w.tables.links)
          (λ w. map (edited u id t l public w.now)) require_row (edit id t l public)
          Steady-require_row)

module _ {I : World → Type 0} ⦃rule : Rule I⦄ {u : ℕ} (links : LinkRule I u) where
  -- An INSERT takes a new id.
  Steady-insert_link :
      (title url : Text) (position : ℕ) (public : Bool)
      → Steady I (insert_link u title url position public)
  Steady-insert_link title url position public = record {
    steady = λ w h. (
      unfold insert_link in record { user = omega arith; link = omega arith; event = omega arith },
      links.insert title url position public w h,
    );
  }

  pub Steady-create_link :
      (p : Platform) (title url : Text) (public : Bool)
      → Steady I (create_link p u title url public)
  unfolding create_link
  Steady-create_link p title url public =
      let t = trim_space title in
      let l = trim_space url in
      let insertion : ℕ → Db (Unit {0}) = λ n. call >> (insert_link u t l n public >> call) in
      let body : Db (Unit {0}) =
        call >> (gets (λ w. next_position u w.tables.links) >>= insertion) in
      Steady-bind (check (validate_link p t l)) (λ _. in_tx body)
        (Steady-check (validate_link p t l))
        (λ _. Steady-in_tx body (
          Steady-bind call (λ _. gets (λ w. next_position u w.tables.links) >>= insertion)
            Steady-call
            (λ _.
              Steady-bind (gets (λ w. next_position u w.tables.links)) insertion
                (Steady-lift (λ w. ok (next_position u w.tables.links)))
                (λ n.
                  Steady-bind call (λ _. insert_link u t l n public >> call) Steady-call
                    (λ _.
                      Steady-bind (insert_link u t l n public) (λ _. call)
                        (Steady-insert_link t l n public) (λ _. Steady-call))))))

  Steady-write_positions_from : (i : ℕ) (ids : List ℕ) → Steady I (write_positions_from u i ids)
  unfolding write_positions_from
  Steady-write_positions_from i [] = Steady-lift (λ _. ok tt)
  Steady-write_positions_from i (id ∷ ids) =
      let place : Db (Unit {0}) = modify (λ w. with_links (map (placed u id i)) w) in
      Steady-bind call (λ _. place >> write_positions_from u (suc i) ids) Steady-call
        (λ _.
          Steady-bind place (λ _. write_positions_from u (suc i) ids)
            (Steady-modify (λ w. with_links (map (placed u id i)) w) (links.place id i))
            (λ _. Steady-write_positions_from (suc i) ids))

  Steady-ordered_link_ids : Steady I (ordered_link_ids u)
  unfolding ordered_link_ids
  Steady-ordered_link_ids = Steady-query (λ w. ordered_ids u w.tables.links)

  Steady-renumber : Steady I (renumber u)
  unfolding renumber write_positions
  Steady-renumber =
      Steady-bind (ordered_link_ids u) (write_positions u) (Steady-ordered_link_ids)
        (Steady-write_positions_from 0)

  pub Steady-delete_link : (id : ℤ) → Steady I (delete_link u id)
  unfolding delete_link
  Steady-delete_link id = Steady-in_tx _ (
      Steady-statement (λ w. count_if (names_link u id) w.tables.links)
        (λ _. remove_if (names_link u id)) (λ n. require_row n >> (renumber u >> call))
        (links.remove id)
        (λ n.
          Steady-bind (require_row n) (λ _. renumber u >> call) (Steady-require_row n)
            (λ _. Steady-bind (renumber u) (λ _. call) (Steady-renumber) (λ _. Steady-call))))

  pub Steady-move_link : (id : ℤ) (up : Bool) → Steady I (move_link u id up)
  unfolding move_link write_positions
  Steady-move_link id up =
      let place : List ℕ → Db (Unit {0}) = λ ids. write_positions u ids >> call in
      Steady-in_tx _ (
        Steady-bind (ordered_link_ids u) (λ ids. lift (moved id up ids) >>= place)
          (Steady-ordered_link_ids)
          (λ ids.
            Steady-bind (lift (moved id up ids)) place (Steady-lift (λ _. moved id up ids)) (λ ids'.
              Steady-bind (write_positions u ids') (λ _. call) (Steady-write_positions_from 0 ids')
                (λ _. Steady-call))))
