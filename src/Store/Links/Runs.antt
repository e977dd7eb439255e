-- ===== src/Store/Links/Runs.antt =====
-- The methods on links as runs: what each does on a database that never fails, and that failures
-- only cut a run short.
use link_nest.Base.{
  ℕ, ℤ, suc, ◌≡◌, ◌≢◌, refl, ap, ◌∙◌, Bool, none, some, List, [], ◌∷◌, ◌++◌, map, ==_ne,
}
use link_nest.Text.{Text}
use link_nest.Text.Utf8.{trim_space}
use link_nest.Platform.{Platform}
use link_nest.Models.{UserError, Error, user, err_link_not_found, ok, err}
use link_nest.Store.World.{LinkRow, World, Db, ◌>>=◌, ◌>>◌, call, check, query, in_tx}
use link_nest.Store.World.Atomic.{bind-ok, bind-err}
use link_nest.Store.World.Robust.{quiet}
use link_nest.Store.World.Quiet.{call-quiet, query-quiet, in_tx-quiet_ok, in_tx-quiet_err}
use link_nest.Store.Validate.{validate_link}
use link_nest.Store.Links.{
  names_link, new_link, next_position, create_link, require_row, with_links, count_if, ordered_ids,
  ordered_link_ids, placed, write_positions_from, write_positions, renumber, remove_if, delete_link,
  moved, lift, move_link,
}
use link_nest.Store.Links.Placing.{place_all}

write_positions_from-quiet :
    (u i : ℕ) (ids : List ℕ) (w : World)
    → write_positions_from u i ids (quiet w)
      ≡ (ok tt, quiet (record w { tables = with_links (place_all u i ids) w }))
unfolding write_positions_from call
write_positions_from-quiet u i [] w = refl
write_positions_from-quiet u i (id ∷ ids) w =
    write_positions_from-quiet u (suc i) ids
      (record w { tables = with_links (map (placed u id i)) w })

-- The table after a deletion.
abbrev pub without : ℕ → ℤ → List LinkRow → List LinkRow
without u id rows =
    let left = remove_if (names_link u id) rows in place_all u 0 (ordered_ids u left) left

require_row-quiet : (n : ℕ) (w : World) → n ≢ 0 → require_row n (quiet w) ≡ (ok tt, quiet w)
unfolding require_row call
require_row-quiet n w h = rw (==_ne n 0 h)

renumber-quiet :
    (u : ℕ) (w : World)
    → renumber u (quiet w) ≡ (
      ok tt,
      quiet (record w { tables = with_links (λ rows. place_all u 0 (ordered_ids u rows) rows) w }),
    )
unfolding renumber ordered_link_ids write_positions
renumber-quiet u w =
    bind-ok (query (λ v. ordered_ids u v.tables.links)) (λ ids. write_positions u ids) (quiet w)
      (query-quiet _ w)
    ∙ write_positions_from-quiet u 0 (ordered_ids u w.tables.links) w

require_row-quiet_zero :
    (n : ℕ) (w : World) → n ≡ 0 → require_row n (quiet w) ≡ (err (user err_link_not_found), quiet w)
unfolding require_row call
require_row-quiet_zero n w h = rw h

module _ (u : ℕ) (id : ℤ) (w : World) where
  affected : ℕ
  affected = count_if (names_link u id) w.tables.links

  left : World
  left = record w { tables = with_links (remove_if (names_link u id)) w }

  pub delete_link-quiet_missing :
      count_if (names_link u id) w.tables.links ≡ 0
      → delete_link u id (quiet w) ≡ (err (user err_link_not_found), quiet w)
  unfolding delete_link affected left call
  delete_link-quiet_missing e = in_tx-quiet_err _ w left (
      bind-err (require_row affected) (λ _. renumber u >> call) (quiet left)
        (require_row-quiet_zero affected left e))

  pub delete_link-quiet :
      count_if (names_link u id) w.tables.links ≢ 0
      → delete_link u id (quiet w)
        ≡ (ok tt, quiet (record w { tables = with_links (without u id) w }))
  unfolding delete_link affected left call
  delete_link-quiet n =
      in_tx-quiet_ok _ w (record w { tables = with_links (without u id) w })
        (bind-ok (require_row affected) (λ _. renumber u >> call) (quiet left)
            (require_row-quiet affected left n)
          ∙ bind-ok (renumber u) (λ _. call) (quiet left) (renumber-quiet u left))

module _ (u : ℕ) (id : ℤ) (up : Bool) (w : World) where
  move_rest : List ℕ → Db (Unit {0})
  move_rest ids = lift (moved id up ids) >>= λ ids'. write_positions u ids' >> call

  pub move_link-quiet_err :
      {e : Error}
      → moved id up (ordered_ids u w.tables.links) ≡ err e
      → move_link u id up (quiet w) ≡ (err e, quiet w)
  unfolding move_link ordered_link_ids move_rest
  move_link-quiet_err {e} h = in_tx-quiet_err _ w w (
      bind-ok (query (λ v. ordered_ids u v.tables.links)) move_rest (quiet w) (query-quiet _ w)
      ∙ bind-err (lift (moved id up (ordered_ids u w.tables.links)))
          (λ ids'. write_positions u ids' >> call) (quiet w) (ap (λ r. (r, quiet w)) h))

  pub move_link-quiet :
      {ids : List ℕ}
      → moved id up (ordered_ids u w.tables.links) ≡ ok ids
      → move_link u id up (quiet w)
        ≡ (ok tt, quiet (record w { tables = with_links (place_all u 0 ids) w }))
  unfolding move_link ordered_link_ids move_rest write_positions
  move_link-quiet {ids} h =
      in_tx-quiet_ok _ w (record w { tables = with_links (place_all u 0 ids) w })
        (bind-ok (query (λ v. ordered_ids u v.tables.links)) move_rest (quiet w) (query-quiet _ w)
          ∙ bind-ok (lift (moved id up (ordered_ids u w.tables.links)))
              (λ ids'. write_positions u ids' >> call) (quiet w) (ap (λ r. (r, quiet w)) h)
          ∙ bind-ok (write_positions u ids) (λ _. call) (quiet w)
              (write_positions_from-quiet u 0 ids w)
          ∙ call-quiet (record w { tables = with_links (place_all u 0 ids) w }))

module _ (p : Platform) (u : ℕ) (title url : Text) (public : Bool) (w : World) where
  -- The row that is added.
  abbrev pub created : LinkRow
  created =
      new_link w.serials.link u (trim_space title) (trim_space url) (next_position u w.tables.links)
        public w.now

  pub create_link-invalid :
      {e : UserError}
      → validate_link p (trim_space title) (trim_space url) ≡ some e
      → create_link p u title url public w ≡ (err (user e), w)
  unfolding create_link
  create_link-invalid h = rw (h, check)

  pub create_link-quiet :
      validate_link p (trim_space title) (trim_space url) ≡ none
      → ((create_link p u title url public (quiet w)).0 ≡ ok tt)
        × ((create_link p u title url public (quiet w)).1.tables
            ≡ with_links (λ l. l ++ created ∷ []) w)
  unfolding create_link in_tx call
  create_link-quiet h = (rw (h, check), rw (h, check))
