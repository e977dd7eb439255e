-- ===== src/Store/Reads/Firsts.antt =====
-- ORDER BY and LIMIT: what the first rows in an order are.
use mathlib.Core.List.{Permᴰ}
use mathlib.Core.List.Permᴰ
use link_nest.Base.{
  ℕ, zero, suc, ◌≤◌, ◌≡◌, refl, ap, ◌⊎◌, inl, inr, Bool, true, false, List, [], ◌∷◌, ◌++◌, arith,
  length, take, drop, take-drop, All, All-mp, Bool-cases,
}
use link_nest.Store.Links.Order.{All-perm}
use link_nest.Store.Reads.{insert_by, sort_by}

module _ {A : Type 0} (le : A → A → Bool) where
  -- Each row is before all that follow.
  abbrev pub Ordered : List A → Type 0
  Ordered [] = Unit
  Ordered (x ∷ xs) = All (λ y. le x y ≡ true) xs × Ordered xs

  -- `ys` are the first `n` of the rows `xs` in the order, or all if there are fewer.
  pub record Firsts (n : ℕ) (xs ys : List A) : Type 0 where
    pub rest : List A
    pub perm : Permᴰ xs (ys ++ rest)
    pub ordered : Ordered (ys ++ rest)
    pub short : length ys ≤ n
    pub full : (rest ≡ []) ⊎ (length ys ≡ n)

  insert_by-perm : (x : A) (xs : List A) → Permᴰ (insert_by le x xs) (x ∷ xs)
  unfolding insert_by
  insert_by-perm x [] = Permᴰ.refl (x ∷ [])
  insert_by-perm x (y ∷ ys) = elim (Bool-cases (le x y)) [
    | inl e ↦ rw e (Permᴰ.refl (x ∷ y ∷ ys))
    | inr e ↦ rw e (Permᴰ.trans (Permᴰ.cons refl (insert_by-perm x ys)) (Permᴰ.swap refl refl))
  ]

  sort_by-perm : (xs : List A) → Permᴰ (sort_by le xs) xs
  unfolding sort_by
  sort_by-perm [] = Permᴰ.nil
  sort_by-perm (x ∷ xs) =
      Permᴰ.trans (insert_by-perm x (sort_by le xs)) (Permᴰ.cons refl (sort_by-perm xs))

  module _ (le_trans : (x y z : A) → le x y ≡ true → le y z ≡ true → le x z ≡ true)
      (le_total : (x y : A) → le x y ≡ false → le y x ≡ true) where
    insert_by-Ordered : (x : A) (xs : List A) → Ordered xs → Ordered (insert_by le x xs)
    unfolding insert_by
    insert_by-Ordered x [] h = (tt, tt)
    insert_by-Ordered x (y ∷ ys) (b, h) = elim (Bool-cases (le x y)) [
      | inl e ↦ rw e ((e, All-mp _ _ ys (λ z k. le_trans x y z e k) b), (b, h))
      | inr e ↦ rw e (
        All-perm (λ z. le y z ≡ true) (insert_by-perm x ys) (le_total x y e, b),
        insert_by-Ordered x ys h,
      )
    ]

    sort_by-Ordered : (xs : List A) → Ordered (sort_by le xs)
    unfolding sort_by
    sort_by-Ordered [] = tt
    sort_by-Ordered (x ∷ xs) = insert_by-Ordered x (sort_by le xs) (sort_by-Ordered xs)

    length-take_le : (n : ℕ) (xs : List A) → length (take n xs) ≤ n
    length-take_le zero xs = omega arith
    length-take_le (suc n) [] = omega arith
    length-take_le (suc n) (x ∷ xs) = omega (arith, length-take_le n xs)

    drop-take : (n : ℕ) (xs : List A) → (drop n xs ≡ []) ⊎ (length (take n xs) ≡ n)
    drop-take zero xs = inr refl
    drop-take (suc n) [] = inl refl
    drop-take (suc n) (x ∷ xs) = elim (drop-take n xs) [ inl e ↦ inl e | inr e ↦ inr (ap suc e) ]

    pub take-sort_by-Firsts : (n : ℕ) (xs : List A) → Firsts n xs (take n (sort_by le xs))
    take-sort_by-Firsts n xs =
        let sorted = sort_by le xs in
        let whole = take-drop n sorted in
        record {
          rest = drop n sorted;
          perm = rw whole (Permᴰ.symm (sort_by-perm xs));
          ordered = rw whole (sort_by-Ordered xs);
          short = length-take_le n sorted;
          full = drop-take n sorted;
        }
