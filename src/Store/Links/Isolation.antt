-- ===== src/Store/Links/Isolation.antt =====
-- Renumbering a user's links changes no link of another user, and of a link only its position.
use link_nest.Base.{ℕ, ℤ, suc, ◌≡◌, ◌≢◌, refl, ◌∙◌, List, [], ◌∷◌, map, arith, if◌then◌else◌}
use link_nest.Store.World.{LinkRow, Tables}
use link_nest.Store.Links.{owned, keys, placed, sort_keys, names_link, remove_if}
use link_nest.Store.Links.Order.{enumerate}
use link_nest.Store.Links.Placing.{place_all}

-- The links of a user, whole, in the order of the table.
abbrev pub of_user : ℕ → List LinkRow → List LinkRow
of_user v [] = []
of_user v (r ∷ rs) = if owned v r then r ∷ of_user v rs else of_user v rs

-- A link but for its position.
abbrev pub content : LinkRow → LinkRow
content r = record r { link = record (r.link) { position = 0 } }

module _ (u v : ℕ) (ne : v ≢ u) where
  pub of_user-placed :
      (id i : ℕ) (rows : List LinkRow) → of_user v (map (placed u id i) rows) ≡ of_user v rows
  unfolding placed
  of_user-placed id i [] = refl
  of_user-placed id i (r ∷ rows) = ground (arith, of_user-placed id i rows)

  pub of_user-place_all :
      (i : ℕ) (ids : List ℕ) (rows : List LinkRow)
      → of_user v (place_all u i ids rows) ≡ of_user v rows
  of_user-place_all i [] rows = refl
  of_user-place_all i (id ∷ ids) rows =
      of_user-place_all (suc i) ids (map (placed u id i) rows) ∙ of_user-placed id i rows

  pub of_user-remove_if :
      (id : ℤ) (rows : List LinkRow) → of_user v (remove_if (names_link u id) rows) ≡ of_user v rows
  unfolding remove_if
  of_user-remove_if id [] = refl
  of_user-remove_if id (r ∷ rows) = ground (arith, of_user-remove_if id rows)

content-placed :
    (u id i : ℕ) (rows : List LinkRow) → map content (map (placed u id i) rows) ≡ map content rows
unfolding placed
content-placed u id i [] = refl
content-placed u id i (r ∷ rows) = ground (arith, content-placed u id i rows)

pub content-place_all :
    (u i : ℕ) (ids : List ℕ) (rows : List LinkRow)
    → map content (place_all u i ids rows) ≡ map content rows
content-place_all u i [] rows = refl
content-place_all u i (id ∷ ids) rows =
    content-place_all u (suc i) ids (map (placed u id i) rows) ∙ content-placed u id i rows

-- From `before` to `after` the links of `u` have come to stand in the order `ids`, at the positions
-- 0, 1, 2, …; all links are those of `links`, but for positions; those of other users and all other
-- tables are as before.
pub record Renumbered (u : ℕ) (ids : List ℕ) (links : List LinkRow) (before after : Tables)
    : Type 0 where
  pub order : sort_keys (keys u after.links) ≡ enumerate 0 ids
  pub contents : map content after.links ≡ map content links
  pub others : (v : ℕ) → v ≢ u → of_user v after.links ≡ of_user v before.links
  pub users : after.users ≡ before.users
  pub sessions : after.sessions ≡ before.sessions
  pub click_events : after.click_events ≡ before.click_events
  pub stats : after.stats ≡ before.stats
