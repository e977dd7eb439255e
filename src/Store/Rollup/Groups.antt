-- ===== src/Store/Rollup/Groups.antt =====
-- Groups of events: each pair of user and link once, and what its group holds.
use link_nest.Base.{
  ℕ, ◌≡◌, refl, ap, inl, inr, Bool, true, false, ◌||◌, none, some, List, [], ◌∷◌, map, arith, ◌==◌,
  if◌then◌else◌, length, All, Bool-cases, ◌<◌,
}
use link_nest.Models.{ClickEvent}
use link_nest.Store.Reads.{select}
use link_nest.Store.Upsert.{RowKey, same_key, Upsert, find_row}
use link_nest.Store.Rollup.{has, distinct_by}

-- An equality test that may serve GROUP BY.
pub record IsTest {K : Type 0} (eq : K → K → Bool) : Type 0 where
  pub eq_refl : (x : K) → eq x x ≡ true
  pub eq_eq : (x y : K) → eq x y ≡ true → x ≡ y

pub same_key-IsTest : IsTest same_key
same_key-IsTest = record {
  eq_refl = λ (a, b). ground arith;
  eq_eq = λ (a, b) (c, d) h. ground arith;
}

pub nat-IsTest : IsTest {K = ℕ} (λ a b. a == b)
nat-IsTest = record { eq_refl = λ a. ground arith; eq_eq = λ a b h. ground arith }

module _ {K : Type 0} (eq : K → K → Bool) (t : IsTest eq) where
  pub has-distinct_by : (x : K) (xs : List K) → has eq x (distinct_by eq xs) ≡ has eq x xs
  unfolding has distinct_by
  has-distinct_by x [] = refl
  has-distinct_by x (y ∷ xs) = elim (Bool-cases (has eq y (distinct_by eq xs))) [
    | inl e ↦ elim (Bool-cases (eq y x)) [
      | inl same ↦
          let known : has eq x (distinct_by eq xs) ≡ true = rw (← t.eq_eq y x same) e in
          rw (e, same) known
      | inr other ↦ rw (e, other) (has-distinct_by x xs)
    ]
    | inr e ↦ rw e (ap (λ b. eq y x || b) (has-distinct_by x xs))
  ]

  -- No element stands twice.
  abbrev pub EachOnce : List K → Type 0
  EachOnce [] = Unit
  EachOnce (x ∷ xs) = (has eq x xs ≡ false) × EachOnce xs

  pub distinct_by-EachOnce : (xs : List K) → EachOnce (distinct_by eq xs)
  unfolding distinct_by
  distinct_by-EachOnce [] = tt
  distinct_by-EachOnce (x ∷ xs) = elim (Bool-cases (has eq x (distinct_by eq xs))) [
    | inl e ↦ rw e (distinct_by-EachOnce xs)
    | inr e ↦ rw e (e, distinct_by-EachOnce xs)
  ]

pub All-distinct_by :
    {K : Type 0} (eq : K → K → Bool) (P : K → Type 0) (xs : List K)
    → All P xs
    → All P (distinct_by eq xs)
unfolding distinct_by
All-distinct_by eq P [] h = tt
All-distinct_by eq P (x ∷ xs) (p, h) = elim (Bool-cases (has eq x (distinct_by eq xs))) [
  | inl e ↦ rw e (All-distinct_by eq P xs h)
  | inr e ↦ rw e (p, All-distinct_by eq P xs h)
]

-- An element is there if and only if the events that have it are there.
module _ {K : Type 0} (eq : K → K → Bool) (f : ClickEvent → K) (x : K) where
  pub has-map_some :
      (es : List ClickEvent) → 0 < length (select (λ e. eq (f e) x) es) → has eq x (map f es) ≡ true
  unfolding has select
  has-map_some [] h = absurd (omega arith)
  has-map_some (e ∷ es) h = ground (arith, has-map_some es)

  pub has-map_none :
      (es : List ClickEvent)
      → length (select (λ e. eq (f e) x) es) ≡ 0
      → has eq x (map f es) ≡ false
  unfolding has select
  has-map_none [] h = refl
  has-map_none (e ∷ es) h = ground (arith, has-map_none es)

pub All-map :
    {A B : Type 0} (P : B → Type 0) (f : A → B) (xs : List A)
    → All (λ x. P (f x)) xs
    → All P (map f xs)
All-map P f [] h = tt
All-map P f (x ∷ xs) (p, h) = (p, All-map P f xs h)

pub select_cong :
    {A : Type 0} (f g : A → Bool) (xs : List A)
    → All (λ x. f x ≡ g x) xs
    → select f xs ≡ select g xs
unfolding select
select_cong f g [] h = refl
select_cong f g (x ∷ xs) (e, h) = elim (Bool-cases (g x)) [
  | inl y ↦ rw (e, y) (ap (λ l. x ∷ l) (select_cong f g xs h))
  | inr n ↦ rw (e, n) (select_cong f g xs h)
]

pub All-select :
    {A : Type 0} (P : A → Type 0) (f : A → Bool) (xs : List A) → All P xs → All P (select f xs)
unfolding select
All-select P f [] h = tt
All-select P f (x ∷ xs) (p, h) = elim (Bool-cases (f x)) [
  | inl e ↦ rw e (p, All-select P f xs h)
  | inr e ↦ rw e (All-select P f xs h)
]

-- Rows made of keys: which of them a table finds.
module _ {A K : Type 0} (t : Upsert A) (eq : K → K → Bool) (row : K → A) (x : RowKey) (k : K)
    (P : K → Type 0) (hit : (j : K) → P j → same_key (t.key (row j)) x ≡ eq j k)
    (exact : (j : K) → eq j k ≡ true → j ≡ k) where
  pub find_row-map :
      (ks : List K)
      → All P ks
      → find_row t x (map row ks) ≡ (if has eq k ks then some (row k) else none)
  unfolding find_row has
  find_row-map [] h = refl
  find_row-map (j ∷ ks) (p, h) = elim (Bool-cases (eq j k)) [
    | inl e ↦ rw (hit j p, e) (ap (λ i. some (row i)) (exact j e))
    | inr e ↦ rw (hit j p, e) (find_row-map ks h)
  ]
