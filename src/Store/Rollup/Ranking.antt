-- ===== src/Store/Rollup/Ranking.antt =====
-- The link on top of a user's day.
use link_nest.Base.{
  ℕ, ◌≡◌, ◌<◌, ◌≤◌, refl, ap, ◌∙◌, ◌⊎◌, inl, inr, true, false, ◌&&◌, ◌||◌, none, some, some-inj,
  List, [], ◌∷◌, map, arith, ltb, leb, ◌==◌, ==_iff, ==_refl, if◌then◌else◌, length, All, All-mp,
  Bool-cases, Option-cases,
}
use mathlib.Core.Path.{subst}
use link_nest.Models.{ClickEvent}
use link_nest.Store.Reads.{select}
use link_nest.Store.Upsert.{RowKey, same_key}
use link_nest.Store.Rollup.{has, pair_of, in_group, link_groups}
use link_nest.Store.Rollup.Day.{better, best, of_user, ranked, top_link}
use link_nest.Store.Rollup.Groups.{same_key-IsTest, has-distinct_by, has-map_some}

-- (l, c) stands before (m, d): it has more clicks, or as many and the smaller id.
abbrev pub Before : ℕ × ℕ → ℕ × ℕ → Type 0
Before x y = (y.1 < x.1) ⊎ ((x.1 ≡ y.1) × (x.0 ≤ y.0))

best-none : (xs : List (ℕ × ℕ)) → best xs ≡ none → xs ≡ []
unfolding best
best-none [] h = refl
best-none (x ∷ xs) h = elim (Option-cases (best xs)) [
  | inl e ↦ cc (rw (e, best) at h)
  | inr (y, e) ↦ cc (rw (e, best) at h)
]

best-All : (P : ℕ × ℕ → Type 0) (xs : List (ℕ × ℕ)) (y : ℕ × ℕ) → All P xs → best xs ≡ some y → P y
unfolding best
best-All P [] y h e = cc
best-All P (x ∷ xs) y (p, h) e = elim (Option-cases (best xs)) [
  | inl n ↦ rw (← some-inj (rw (n, best) at e)) p
  | inr (z, s) ↦ let q = best-All P xs z h s in rw (← some-inj (rw (s, best) at e)) (chosen x z p q)
]
  where
    chosen : (x z : ℕ × ℕ) → P x → P z → P (better x z)
    chosen (l, c) (m, d) p q =
        elim (ltb d c || (c == d && leb l m)) as (λ b. P (if b then (l, c) else (m, d))) [
          | true ↦ p
          | false ↦ q
        ]

Before-trans : (x y z : ℕ × ℕ) → Before x y → Before y z → Before x z
Before-trans (a, b) (c, d) (e, f) h k = ground arith

best-Before : (xs : List (ℕ × ℕ)) (y : ℕ × ℕ) → best xs ≡ some y → All (Before y) xs
unfolding best
best-Before [] y e = tt
best-Before (x ∷ xs) y e = elim (Option-cases (best xs)) [
  | inl n ↦
      subst (λ z. All (Before z) (x ∷ xs)) (some-inj (rw (n, best) at e))
        (Before_refl x, rw (best-none xs n) tt)
  | inr (z, s) ↦
      let rest = best-Before xs z s in
      subst (λ w. All (Before w) (x ∷ xs)) (some-inj (rw (s, best) at e))
        (
          better-first x z,
          All-mp _ _ xs (λ w. Before-trans (better x z) z w (better-second x z)) rest,
        )
]
  where
    Before_refl : (x : ℕ × ℕ) → Before x x
    Before_refl (l, c) = inr (refl, omega arith)

    better-first : (x z : ℕ × ℕ) → Before (better x z) x
    better-first (l, c) (m, d) = ground arith

    better-second : (x z : ℕ × ℕ) → Before (better x z) z
    better-second (l, c) (m, d) = ground arith

-- The number of a user's clicks on a link.
abbrev pub clicks_on : List ClickEvent → ℕ → ℕ → ℕ
clicks_on es u l = length (select (in_group (u, l)) es)

All-ranked :
    (P : ℕ × ℕ → Type 0) (count : RowKey → ℕ) (u : ℕ) (ks : List RowKey)
    → All P (map (λ (k : RowKey). (k.1, count k)) (select (λ (k : RowKey). k.0 == u) ks))
    → All (λ k. (k.0 == u) ≡ true → P (k.1, count k)) ks
unfolding select
All-ranked P count u [] h = tt
All-ranked P count u (k ∷ ks) h = elim (Bool-cases (k.0 == u)) [
  | inl e ↦ let (p, r) = rw e at h in ((λ _. p), All-ranked P count u ks r)
  | inr e ↦ ((λ y. cc), All-ranked P count u ks (rw e at h))
]

All-has :
    (P : RowKey → Type 0) (k : RowKey) (ks : List RowKey)
    → has same_key k ks ≡ true
    → All P ks
    → P k
unfolding has
All-has P k [] h a = cc
All-has P k (j ∷ ks) h (p, a) = elim (Bool-cases (same_key j k)) [
  | inl e ↦ rw (← same_key-IsTest.eq_eq j k e) p
  | inr e ↦ All-has P k ks (rw e at h) a
]

-- Whatever holds of all ranked links of a user holds of each link that the user's visitors clicked.
ranked_lem :
    (P : ℕ × ℕ → Type 0) (es : List ClickEvent) (u l : ℕ)
    → 0 < clicks_on es u l
    → All P (ranked es u)
    → P (l, clicks_on es u l)
ranked_lem P es u l h a =
    let here : has same_key (u, l) (link_groups es) ≡ true =
      has-distinct_by same_key same_key-IsTest (u, l) (map pair_of es)
      ∙ has-map_some same_key pair_of (u, l) es h in
    All-has (λ k. (k.0 == u) ≡ true → P (k.1, length (select (in_group k) es))) (u, l)
      (link_groups es) here
      (All-ranked P (λ k. length (select (in_group k) es)) u (link_groups es) a) (==_refl u)

clicked_link :
    (es : List ClickEvent) (u : ℕ)
    → 0 < length (select (of_user u) es)
    → (l : ℕ) × (0 < clicks_on es u l)
unfolding select
clicked_link [] u h = absurd (omega arith)
clicked_link (e ∷ es) u h = elim (Bool-cases (e.user_id == u)) [
  | inl y ↦
      let here : in_group (u, e.link_id) e ≡ true = ground arith in
      (e.link_id, rw here (omega arith))
  | inr n ↦
      let (l, k) = clicked_link es u (rw n at h) in
      let not_here : in_group (u, l) e ≡ false = ground arith in (l, rw not_here k)
]

ranked-exact :
    (es : List ClickEvent) (u : ℕ) (ks : List RowKey)
    → All
        (λ (x : ℕ × ℕ). x.1 ≡ clicks_on es u x.0)
        (map
          (λ (k : RowKey). (k.1, length (select (in_group k) es)))
          (select (λ (k : RowKey). k.0 == u) ks))
unfolding select
ranked-exact es u [] = tt
ranked-exact es u ((v, l) ∷ ks) = elim (Bool-cases (v == u)) [
  | inl e ↦ rw e (ap (λ x. clicks_on es x l) ((==_iff v u).0 e), ranked-exact es u ks)
  | inr e ↦ rw e (ranked-exact es u ks)
]

-- A user with clicks has a link on top, given with its number of clicks; every link with clicks of
-- this user's visitors has fewer, or as many and no smaller id.
pub top_link_lem :
    (es : List ClickEvent) (u : ℕ)
    → 0 < length (select (of_user u) es)
    → (l : ℕ) × (top_link es u ≡ some (l, clicks_on es u l))
      × ((m : ℕ) → 0 < clicks_on es u m → Before (l, clicks_on es u l) (m, clicks_on es u m))
unfolding top_link
top_link_lem es u h = elim (Option-cases (best (ranked es u))) [
  | inl e ↦
      let (l, k) = clicked_link es u h in
      absurd (ranked_lem (λ _. ⊥) es u l k (rw (best-none (ranked es u) e) tt))
  | inr ((l, c), e) ↦
      let exact : c ≡ clicks_on es u l =
        best-All (λ x. x.1 ≡ clicks_on es u x.0) (ranked es u) (l, c)
          (ranked-exact es u (link_groups es)) e in
      let top : best (ranked es u) ≡ some (l, clicks_on es u l) = e ∙ ap (λ d. some (l, d)) exact in
      (
        l,
        top,
        λ m k. ranked_lem (Before (l, clicks_on es u l)) es u m k (best-Before (ranked es u) _ top),
      )
]
