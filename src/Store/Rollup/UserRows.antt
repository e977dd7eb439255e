-- ===== src/Store/Rollup/UserRows.antt =====
-- A row for each user with clicks on a day, upserted into a table.

use link_nest.Base.{
  ℕ, ◌≡◌, ◌<◌, refl, ap, ◌∙◌, true, false, none, some, List, [], ◌∷◌, map, arith, ◌==◌,
  if◌then◌else◌, length, All,
}
use link_nest.Models.{ClickEvent}
use link_nest.Store.Reads.{select}
use link_nest.Store.Upsert.{
  same_key, Upsert, find_row, DistinctKeys, upsert_all, find_row-upsert_all, merged,
}
use link_nest.Store.Rollup.{has}
use link_nest.Store.Rollup.Day.{of_user, users_in}
use link_nest.Store.Rollup.Groups.{
  nat-IsTest, has-distinct_by, EachOnce, distinct_by-EachOnce, has-map_some, has-map_none,
  find_row-map,
}

-- Tables with one row for each user and day.
module _ {A : Type 0} (t : Upsert A) (row : ℕ → A) (date : ℕ)
    (keyed : (u : ℕ) → t.key (row u) ≡ (u, date)) (es : List ClickEvent) where
  user_hit : (u j : ℕ) → Unit {0} → same_key (t.key (row j)) (u, date) ≡ (j == u)
  user_hit u j h = ap (λ k. same_key k (u, date)) (keyed j) ∙ ground arith

  All-any : (us : List ℕ) → All (λ _. Unit {0}) us
  All-any [] = tt
  All-any (u ∷ us) = (tt, All-any us)

  find_row-users :
      (u : ℕ) (us : List ℕ)
      → find_row t (u, date) (map row us)
        ≡ (if has (λ a b. a == b) u us then some (row u) else none)
  find_row-users u us =
      find_row-map t (λ a b. a == b) row (u, date) u (λ _. Unit {0}) (user_hit u)
        (λ j e. nat-IsTest.eq_eq j u e) us (All-any us)

  DistinctKeys-users :
      (us : List ℕ) → EachOnce (λ a b. a == b) nat-IsTest us → DistinctKeys t (map row us)
  DistinctKeys-users [] once = tt
  DistinctKeys-users (u ∷ us) (fresh, once) = (
    ap (λ k. find_row t k (map row us)) (keyed u) ∙ find_row-users u us ∙ rw fresh refl,
    DistinctKeys-users us once,
  )

  has-user :
      (u : ℕ)
      → has (λ a b. a == b) u (users_in es)
        ≡ has (λ a b. a == b) u (map (λ (e : ClickEvent). e.user_id) es)
  has-user u = has-distinct_by (λ a b. a == b) nat-IsTest u (map (λ (e : ClickEvent). e.user_id) es)

  unfoldable pub rows_of_users : List A
  rows_of_users = map row (users_in es)

  users-DistinctKeys : DistinctKeys t rows_of_users
  unfolding rows_of_users
  users-DistinctKeys =
      DistinctKeys-users (users_in es)
        (distinct_by-EachOnce (λ a b. a == b) nat-IsTest (map (λ (e : ClickEvent). e.user_id) es))

  -- A user with clicks gets the row, merged with the old one; other rows stay.
  pub after-counted :
      (u : ℕ) (rows : List A)
      → 0 < length (select (of_user u) es)
      → find_row t (u, date) (upsert_all t rows_of_users rows)
        ≡ some (merged t (find_row t (u, date) rows) (row u))
  unfolding rows_of_users
  after-counted u rows h =
      let present : has (λ a b. a == b) u (users_in es) ≡ true =
        has-user u ∙ has-map_some (λ a b. a == b) (λ (e : ClickEvent). e.user_id) u es h in
      let found : find_row t (u, date) rows_of_users ≡ some (row u) =
        find_row-users u (users_in es) ∙ rw present refl in
      find_row-upsert_all t (u, date) rows_of_users rows users-DistinctKeys ∙ rw found refl

  pub after-silent :
      (u : ℕ) (rows : List A)
      → length (select (of_user u) es) ≡ 0
      → find_row t (u, date) (upsert_all t rows_of_users rows) ≡ find_row t (u, date) rows
  unfolding rows_of_users
  after-silent u rows h =
      let absent : has (λ a b. a == b) u (users_in es) ≡ false =
        has-user u ∙ has-map_none (λ a b. a == b) (λ (e : ClickEvent). e.user_id) u es h in
      let missed : find_row t (u, date) rows_of_users ≡ none =
        find_row-users u (users_in es) ∙ rw absent refl in
      find_row-upsert_all t (u, date) rows_of_users rows users-DistinctKeys ∙ rw missed refl
