-- ===== src/Store/Reads.antt =====
-- The lists that store/store.go reads for pages and for the API.
pub mod Bounds
pub mod Listing
pub mod Firsts
pub mod Quiet
mod Tests
use link_nest.Base.{
  ℕ, ℤ, pos, negsuc, ◌+◌, Bool, true, false, not, ◌&&◌, ◌||◌, List, [], ◌∷◌, map, ltb, leb, ◌==◌,
  if◌then◌else◌, length, take,
}
use link_nest.Models.{Link, ClickEvent}
use link_nest.Store.World.{LinkRow, World, Db, query}

-- `if limit <= 0 || limit > 100 { limit = 50 }`.
unfoldable pub page_limit : ℤ → ℕ
page_limit (negsuc _) = 50
page_limit (pos n) = if n == 0 || ltb 100 n then 50 else n

-- `id > ?`.
abbrev pub is_after : ℤ → ℕ → Bool
is_after (negsuc _) id = true
is_after (pos n) id = ltb n id

module _ {A : Type 0} where
  unfoldable pub select : (A → Bool) → List A → List A
  select f [] = []
  select f (x ∷ xs) = if f x then x ∷ select f xs else select f xs

  -- ORDER BY, by insertion; `le` is the order of the sort keys.
  module _ (le : A → A → Bool) where
    unfoldable pub insert_by : A → List A → List A
    insert_by x [] = x ∷ []
    insert_by x (y ∷ ys) = if le x y then x ∷ y ∷ ys else y ∷ insert_by x ys

    unfoldable pub sort_by : List A → List A
    unfolding insert_by
    sort_by [] = []
    sort_by (x ∷ xs) = insert_by x (sort_by xs)

-- `ORDER BY position, id`.
abbrev pub le_place : Link → Link → Bool
le_place a b = ltb a.position b.position || (a.position == b.position && leb a.id b.id)

abbrev pub links_of : List LinkRow → List Link
links_of rows = map (λ r. r.link) rows

-- WHERE, with `AND public = true` if only public links are asked for.
abbrev pub is_listed : ℕ → Bool → ℤ → Link → Bool
is_listed u only_public after l =
    l.user_id == u && is_after after l.id && (not only_public || l.public)

-- The rows that `LinksForUser` selects.
unfoldable pub listing : ℕ → Bool → ℤ → ℤ → List LinkRow → List Link
unfolding page_limit select sort_by
listing u only_public limit after rows =
    take (page_limit limit)
      (sort_by le_place (select (is_listed u only_public after) (links_of rows)))

unfoldable pub links_for_user : ℕ → Bool → ℤ → ℤ → Db (List Link)
unfolding listing
links_for_user u only_public limit after =
    query (λ w. listing u only_public limit after w.tables.links)

-- `ORDER BY click_count DESC, id`.
abbrev pub le_clicks : Link → Link → Bool
le_clicks a b = ltb b.click_count a.click_count || (a.click_count == b.click_count && leb a.id b.id)

unfoldable pub top_links : ℕ → Db (List Link)
unfolding select sort_by
top_links u = query (λ w.
    take 5 (sort_by le_clicks (select (λ (l : Link). l.user_id == u) (links_of w.tables.links))))

-- `ORDER BY id`.
abbrev pub le_event : ClickEvent → ClickEvent → Bool
le_event a b = leb a.id b.id

abbrev pub is_history : ℕ → ℤ → ClickEvent → Bool
is_history u after e = e.user_id == u && is_after after e.id

-- The rows that `APIHistory` selects.
unfoldable pub history : ℕ → ℤ → ℤ → List ClickEvent → List ClickEvent
unfolding page_limit select sort_by
history u limit after es =
    take (page_limit limit) (sort_by le_event (select (is_history u after) es))

unfoldable pub api_history : ℕ → ℤ → ℤ → Db (List ClickEvent)
unfolding history
api_history u limit after = query (λ w. history u limit after w.tables.click_events)
