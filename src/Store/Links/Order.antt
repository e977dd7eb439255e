-- ===== src/Store/Links/Order.antt =====
-- The order of a user's links: sorting by position and id depends only on which keys there are.
use mathlib.Core.List.{Permᴰ}
use mathlib.Core.List.Permᴰ
use mathlib.Core.Path.{subst}
use link_nest.Base.{
  ℕ, suc, ◌≡◌, ◌≢◌, refl, sym, ap, ap₂, ◌∙◌, List, [], ◌∷◌, map, arith, All, Distinct, Bool-cases,
  inl, inr,
}
use link_nest.Store.Links.{Key, le_key, insert_key, sort_keys}

-- Of two keys one is below the other, and only equal keys are below one another.
insert_key_comm :
    (a b : Key) (l : List Key) → insert_key a (insert_key b l) ≡ insert_key b (insert_key a l)
unfolding insert_key
insert_key_comm (p, i) (q, j) [] = ground arith
insert_key_comm (p, i) (q, j) ((r, k) ∷ l) = ground (arith, insert_key_comm (p, i) (q, j) l)

pub sort_keys_of_perm : {xs ys : List Key} → Permᴰ xs ys → sort_keys xs ≡ sort_keys ys
unfolding sort_keys
sort_keys_of_perm Permᴰ.nil = refl
sort_keys_of_perm (Permᴰ.cons e h) = ap₂ insert_key e (sort_keys_of_perm h)
sort_keys_of_perm (Permᴰ.swap {a} {b} {l = l} e f) =
    rw (← e, ← f) (insert_key_comm a b (sort_keys l))
sort_keys_of_perm (Permᴰ.trans h k) = sort_keys_of_perm h ∙ sort_keys_of_perm k

pub insert_key-perm : (k : Key) (l : List Key) → Permᴰ (insert_key k l) (k ∷ l)
unfolding insert_key
insert_key-perm k [] = Permᴰ.refl (k ∷ [])
insert_key-perm k (j ∷ l) = elim (Bool-cases (le_key k j)) [
  | inl below ↦ rw below (Permᴰ.refl (k ∷ j ∷ l))
  | inr above ↦
      rw above (Permᴰ.trans (Permᴰ.cons refl (insert_key-perm k l)) (Permᴰ.swap refl refl))
]

pub sort_keys-perm : (l : List Key) → Permᴰ (sort_keys l) l
unfolding sort_keys
sort_keys-perm [] = Permᴰ.nil
sort_keys-perm (k ∷ l) =
    Permᴰ.trans (insert_key-perm k (sort_keys l)) (Permᴰ.cons refl (sort_keys-perm l))

-- The positions 0, 1, 2, … from `i` on, with the given ids.
abbrev pub enumerate : ℕ → List ℕ → List Key
enumerate i [] = []
enumerate i (id ∷ ids) = (i, id) ∷ enumerate (suc i) ids

pub map-enumerate : (i : ℕ) (ids : List ℕ) → map (λ (k : Key). k.1) (enumerate i ids) ≡ ids
map-enumerate i [] = refl
map-enumerate i (id ∷ ids) = ap (λ l. id ∷ l) (map-enumerate (suc i) ids)

pub sort_keys-enumerate : (i : ℕ) (ids : List ℕ) → sort_keys (enumerate i ids) ≡ enumerate i ids
unfolding sort_keys insert_key
sort_keys-enumerate i [] = refl
sort_keys-enumerate i (id ∷ []) = refl
sort_keys-enumerate i (id ∷ id' ∷ ids) = rw (sort_keys-enumerate (suc i) (id' ∷ ids)) (ground arith)

module _ {ℓ κ} {A : Type ℓ} (P : A → Type κ) where
  pub All-perm : {xs ys : List A} → Permᴰ xs ys → All P ys → All P xs
  All-perm Permᴰ.nil h = tt
  All-perm (Permᴰ.cons e q) (p, h) = (rw e p, All-perm q h)
  All-perm (Permᴰ.swap e f) (p, (q, h)) = (rw e q, (rw f p, h))
  All-perm (Permᴰ.trans p q) h = All-perm p (All-perm q h)

module _ {A : Type 0} where
  pub Distinct-perm : {xs ys : List A} → Permᴰ xs ys → Distinct ys → Distinct xs
  Distinct-perm Permᴰ.nil h = tt
  Distinct-perm (Permᴰ.cons {a} {l₂ = l} e q) (p, h) =
      (All-perm (λ y. a ≢ y) q (subst (λ x. All (λ y. x ≢ y) l) (sym e) p), Distinct-perm q h)
  Distinct-perm (Permᴰ.swap {l} e f) ((p, r), (q, h)) = (
    ((λ x. p (sym f ∙ sym x ∙ e)), subst (λ x. All (λ y. x ≢ y) l) (sym e) q),
    (subst (λ x. All (λ y. x ≢ y) l) (sym f) r, h),
  )
  Distinct-perm (Permᴰ.trans p q) h = Distinct-perm p (Distinct-perm q h)

pub map-perm :
    {A B : Type 0} (f : A → B) {xs ys : List A} → Permᴰ xs ys → Permᴰ (map f xs) (map f ys)
map-perm f Permᴰ.nil = Permᴰ.nil
map-perm f (Permᴰ.cons e q) = Permᴰ.cons (ap f e) (map-perm f q)
map-perm f (Permᴰ.swap e g) = Permᴰ.swap (ap f e) (ap f g)
map-perm f (Permᴰ.trans p q) = Permᴰ.trans (map-perm f p) (map-perm f q)
