-- ===== src/Store/Reads/Bounds.antt =====
-- What a list that is read holds, and how long it can be.

use link_nest.Base.{
  ℕ, ℤ, pos, negsuc, zero, suc, ◌≤◌, ◌≡◌, inl, inr, Bool, true, List, [], ◌∷◌, arith, ==_iff,
  length, take, length-take, All, Bool-cases,
}
use mathlib.Core.Path.{subst, sym}
use link_nest.Models.{Link, ClickEvent, ok}
use link_nest.Store.World.{World}
use link_nest.Store.World.Runs.{query-ok}
use link_nest.Store.Reads.{
  page_limit, is_after, select, insert_by, sort_by, le_place, le_event, links_of, is_listed,
  is_history, listing, links_for_user, history, api_history,
}

page_limit_lem : (limit : ℤ) → page_limit limit ≤ 100
unfolding page_limit
page_limit_lem (negsuc n) = omega arith
page_limit_lem (pos n) = ground arith

module _ {A : Type 0} (P : A → Type 0) where
  pub All-select : (f : A → Bool) (xs : List A) → ((x : A) → f x ≡ true → P x) → All P (select f xs)
  unfolding select
  All-select f [] h = tt
  All-select f (x ∷ xs) h = elim (Bool-cases (f x)) [
    | inl e ↦ rw e (h x e, All-select f xs h)
    | inr e ↦ rw e (All-select f xs h)
  ]

  All-insert_by :
      (le : A → A → Bool) (x : A) (xs : List A) → P x → All P xs → All P (insert_by le x xs)
  unfolding insert_by
  All-insert_by le x [] p h = (p, tt)
  All-insert_by le x (y ∷ ys) p (q, h) = elim (Bool-cases (le x y)) [
    | inl e ↦ rw e (p, (q, h))
    | inr e ↦ rw e (q, All-insert_by le x ys p h)
  ]

  All-sort_by : (le : A → A → Bool) (xs : List A) → All P xs → All P (sort_by le xs)
  unfolding sort_by
  All-sort_by le [] h = tt
  All-sort_by le (x ∷ xs) (p, h) = All-insert_by le x (sort_by le xs) p (All-sort_by le xs h)

  All-take : (n : ℕ) (xs : List A) → All P xs → All P (take n xs)
  All-take zero xs h = tt
  All-take (suc n) [] h = tt
  All-take (suc n) (x ∷ xs) (p, h) = (p, All-take n xs h)

  -- A page of the selected rows, in any order.
  All-page :
      (n : ℕ) (le : A → A → Bool) (f : A → Bool) (xs : List A)
      → ((x : A) → f x ≡ true → P x)
      → All P (take n (sort_by le (select f xs)))
  All-page n le f xs h = All-take n _ (All-sort_by le _ (All-select f xs h))

take-short : {A : Type 0} (limit : ℤ) (xs : List A) → length (take (page_limit limit) xs) ≤ 100
take-short limit xs = omega (arith, length-take (page_limit limit) xs, page_limit_lem limit)

abbrev pub IsPublicOf : ℕ → Link → Type 0
IsPublicOf u l = (l.user_id ≡ u) × (l.public ≡ true)

abbrev pub IsHistoryOf : ℕ → ℤ → ClickEvent → Type 0
IsHistoryOf u after e = (e.user_id ≡ u) × (is_after after e.id ≡ true)

is_listed_lem : (u : ℕ) (after : ℤ) (l : Link) → is_listed u true after l ≡ true → IsPublicOf u l
is_listed_lem u after l h = ground (arith, ==_iff l.user_id u)

is_history_lem :
    (u : ℕ) (after : ℤ) (e : ClickEvent) → is_history u after e ≡ true → IsHistoryOf u after e
is_history_lem u after e h = ground (arith, ==_iff e.user_id u)

-- Whatever limit is asked for, a page of public links that is read has at most 100 links; all are
-- public and belong to the user.
pub links_for_user-IsPublicOf :
    (u : ℕ) (limit after : ℤ) (w v : World) (ls : List Link)
    → links_for_user u true limit after w ≡ (ok ls, v)
    → (length ls ≤ 100) × All (IsPublicOf u) ls
unfolding links_for_user listing
links_for_user-IsPublicOf u limit after w v ls done =
    let found = query-ok (λ t. listing u true limit after t.links) ls w v done in
    subst (λ xs. (length xs ≤ 100) × All (IsPublicOf u) xs) (sym found)
      (
        take-short limit _,
        All-page (IsPublicOf u) (page_limit limit) le_place (is_listed u true after)
            (links_of w.tables.links) (is_listed_lem u after),
      )

-- Whatever limit is asked for, a page of click events that is read has at most 100 events; all are
-- the user's and come after the identifier asked for.
pub api_history-IsHistoryOf :
    (u : ℕ) (limit after : ℤ) (w v : World) (es : List ClickEvent)
    → api_history u limit after w ≡ (ok es, v)
    → (length es ≤ 100) × All (IsHistoryOf u after) es
unfolding api_history history
api_history-IsHistoryOf u limit after w v es done =
    let found = query-ok (λ t. history u limit after t.click_events) es w v done in
    subst (λ xs. (length xs ≤ 100) × All (IsHistoryOf u after) xs) (sym found)
      (
        take-short limit _,
        All-page (IsHistoryOf u after) (page_limit limit) le_event (is_history u after)
            w.tables.click_events (is_history_lem u after),
      )
