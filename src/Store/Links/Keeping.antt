-- ===== src/Store/Links/Keeping.antt =====
-- Sorting commutes with leaving keys out, so a deletion keeps the order of the other links.

use link_nest.Base.{
  ◌≡◌, refl, sym, ap, ◌∙◌, Bool, true, false, List, [], ◌∷◌, arith, if◌then◌else◌, All, All-mp,
  Bool-cases, inl, inr,
}
use link_nest.Store.Links.{Key, le_key, insert_key, sort_keys}
use link_nest.Store.Links.Order.{insert_key-perm, All-perm}

le_key_trans : (a b c : Key) → le_key a b ≡ true → le_key b c ≡ true → le_key a c ≡ true
le_key_trans (p, i) (q, j) (r, k) h t = ground arith

le_key_total : (a b : Key) → le_key a b ≡ false → le_key b a ≡ true
le_key_total (p, i) (q, j) h = ground arith

abbrev Sorted : List Key → Type 0
Sorted [] = Unit
Sorted (k ∷ l) = All (λ j. le_key k j ≡ true) l × Sorted l

insert_key-Sorted : (k : Key) (l : List Key) → Sorted l → Sorted (insert_key k l)
unfolding insert_key
insert_key-Sorted k [] h = (tt, tt)
insert_key-Sorted k (j ∷ l) (a, s) = elim (Bool-cases (le_key k j)) [
  | inl below ↦
      rw (below, insert_key) ((below, All-mp _ _ l (λ i. le_key_trans k j i below) a), (a, s))
  | inr above ↦
      rw (above, insert_key)
        (
          All-perm (λ i. le_key j i ≡ true) (insert_key-perm k l) (le_key_total k j above, a),
          insert_key-Sorted k l s,
        )
]

sort_keys-Sorted : (l : List Key) → Sorted (sort_keys l)
unfolding sort_keys
sort_keys-Sorted [] = tt
sort_keys-Sorted (k ∷ l) = insert_key-Sorted k (sort_keys l) (sort_keys-Sorted l)

-- The keys that pass a test.
unfoldable pub keep : (Key → Bool) → List Key → List Key
keep f [] = []
keep f (k ∷ l) = if f k then k ∷ keep f l else keep f l

module _ (f : Key → Bool) where
  keep-All : (P : Key → Type 0) (l : List Key) → All P l → All P (keep f l)
  unfolding keep
  keep-All P [] h = tt
  keep-All P (k ∷ l) (p, h) = elim (Bool-cases (f k)) [
    | inl e ↦ rw e (p, keep-All P l h)
    | inr e ↦ rw e (keep-All P l h)
  ]

  insert_key_least :
      (k : Key) (l : List Key) → All (λ j. le_key k j ≡ true) l → insert_key k l ≡ k ∷ l
  unfolding insert_key
  insert_key_least k [] h = refl
  insert_key_least k (j ∷ l) (p, h) = rw p

  keep-cons_in : (k : Key) (l : List Key) → f k ≡ true → keep f (k ∷ l) ≡ k ∷ keep f l
  unfolding keep
  keep-cons_in k l e = rw e

  keep-insert_key_least :
      (k : Key) (l : List Key)
      → f k ≡ true
      → All (λ j. le_key k j ≡ true) l
      → keep f (insert_key k l) ≡ insert_key k (keep f l)
  keep-insert_key_least k l e h =
      ap (keep f) (insert_key_least k l h)
      ∙ keep-cons_in k l e
      ∙ sym (insert_key_least k (keep f l) (keep-All (λ j. le_key k j ≡ true) l h))

  keep-insert_key_past :
      (k j : Key) (l : List Key)
      → le_key k j ≡ false
      → keep f (insert_key k l) ≡ insert_key k (keep f l)
      → keep f (insert_key k (j ∷ l)) ≡ insert_key k (keep f (j ∷ l))
  unfolding keep insert_key
  keep-insert_key_past k j l above ih = elim (Bool-cases (f j)) [
    | inl e ↦ rw (above, e, above) (ap (λ m. j ∷ m) ih)
    | inr e ↦ rw (above, e) ih
  ]

  keep-insert_key_in :
      (k : Key) (l : List Key)
      → f k ≡ true
      → Sorted l
      → keep f (insert_key k l) ≡ insert_key k (keep f l)
  keep-insert_key_in k [] e h = unfold insert_key keep in rw e
  keep-insert_key_in k (j ∷ l) e (a, s) = elim (Bool-cases (le_key k j)) [
    | inl below ↦
        keep-insert_key_least k (j ∷ l) e (below, All-mp _ _ l (λ i. le_key_trans k j i below) a)
    | inr above ↦ keep-insert_key_past k j l above (keep-insert_key_in k l e s)
  ]

  keep-insert_key_out : (k : Key) (l : List Key) → f k ≡ false → keep f (insert_key k l) ≡ keep f l
  unfolding keep insert_key
  keep-insert_key_out k [] e = rw e
  keep-insert_key_out k (j ∷ l) e = ground (arith, keep-insert_key_out k l e)

  pub sort_keys-keep : (l : List Key) → sort_keys (keep f l) ≡ keep f (sort_keys l)
  unfolding sort_keys keep
  sort_keys-keep [] = refl
  sort_keys-keep (k ∷ l) = elim (Bool-cases (f k)) [
    | inl e ↦
        rw (e, keep-insert_key_in k (sort_keys l) e (sort_keys-Sorted l))
          (ap (insert_key k) (sort_keys-keep l))
    | inr e ↦ rw (e, keep-insert_key_out k (sort_keys l) e) (sort_keys-keep l)
  ]
