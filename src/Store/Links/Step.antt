-- ===== src/Store/Links/Step.antt =====
-- What the loop and the swap of MoveLink do to the order of a user's links.

use mathlib.Core.Path.{subst, subst₂}
use mathlib.Core.List.{append_assoc}
use native.Mathlib.Numerals.{add-one}
use link_nest.Base.{
  ℕ, ℤ, zero, suc, is_nat, ◌+◌, ◌≡◌, refl, sym, ap, ◌∙◌, Bool, true, false, none, some, some-inj,
  List, [], ◌∷◌, ◌++◌, arith, leb, if◌then◌else◌, length, length-append, All, Bool-cases,
  Option-cases, inl, inr,
}
use link_nest.Models.{user, err_link_not_found, err_link_at_edge, Result, ok, err}
use link_nest.Store.Links.{index_of, target, swapped, moved}

-- Two neighbours of a list, and what stands before and behind them.
pub record Neighbours (ids : List ℕ) : Type 0 where
  pub before : List ℕ
  pub first : ℕ
  pub second : ℕ
  pub behind : List ℕ
  pub whole : ids ≡ before ++ (first ∷ second ∷ behind)

-- The list with the two exchanged.
abbrev pub exchanged : {ids : List ℕ} → Neighbours ids → List ℕ
exchanged n = n.before ++ (n.second ∷ n.first ∷ n.behind)

swapped-suc : (i j x : ℕ) (ids : List ℕ) → swapped (suc i) (suc j) (x ∷ ids) ≡ x ∷ swapped i j ids
unfolding swapped
swapped-suc i j x ids = ground arith

module _ (id : ℤ) where
  -- The link `id` is the first or the second of two neighbours, by the direction.
  abbrev pub Chosen : Bool → {ids : List ℕ} → Neighbours ids → Type 0
  Chosen true n = is_nat id n.second ≡ true
  Chosen false n = is_nat id n.first ≡ true

  -- No id of the list is `id`.
  abbrev pub Absent : List ℕ → Type 0
  Absent = All (λ x. is_nat id x ≡ false)

  -- The link `id` ends the list on the side that it is moved to.
  abbrev pub AtEdge : Bool → List ℕ → Type 0
  AtEdge up [] = ⊥
  AtEdge true (x ∷ _) = is_nat id x ≡ true
  AtEdge false (x ∷ []) = is_nat id x ≡ true
  AtEdge false (x ∷ y ∷ xs) = AtEdge false (y ∷ xs)

  pub data Moved (up : Bool) (ids : List ℕ) : Result (List ℕ) → Type 0 where
    absent : Absent ids → Moved up ids (err (user err_link_not_found))
    at_edge : AtEdge up ids → Moved up ids (err (user err_link_at_edge))
    swap : (n : Neighbours ids) → Chosen up n → Moved up ids (ok (exchanged n))

  -- Where the loop of `MoveLink` stops.
  record Found (ids : List ℕ) (i : ℕ) : Type 0 where
    before : List ℕ
    found : ℕ
    behind : List ℕ
    whole : ids ≡ before ++ (found ∷ behind)
    named : is_nat id found ≡ true
    place : length before ≡ i

  index_of-Absent : (ids : List ℕ) → index_of id ids ≡ none → Absent ids
  unfolding index_of
  index_of-Absent [] h = tt
  index_of-Absent (x ∷ ids) h = elim (Bool-cases (is_nat id x)) [
    | inl e ↦ cc (rw (e, index_of) at h)
    | inr e ↦ elim (Option-cases (index_of id ids)) [
      | inl missed ↦ (e, index_of-Absent ids missed)
      | inr (i, hit) ↦ cc (rw (e, hit, index_of) at h)
    ]
  ]

  index_of-Found : (ids : List ℕ) (i : ℕ) → index_of id ids ≡ some i → Found ids i
  unfolding index_of
  index_of-Found [] i h = cc
  index_of-Found (x ∷ ids) i h = elim (Bool-cases (is_nat id x)) [
    | inl e ↦ record {
      before = [];
      found = x;
      behind = ids;
      whole = refl;
      named = e;
      place = some-inj (rw (e, index_of) at h);
    }
    | inr e ↦ elim (Option-cases (index_of id ids)) [
      | inl missed ↦ cc (rw (e, missed, index_of) at h)
      | inr (j, hit) ↦
          let f = index_of-Found ids j hit in
          record {
            before = x ∷ f.before;
            found = f.found;
            behind = f.behind;
            whole = ap (λ l. x ∷ l) (f.whole);
            named = f.named;
            place = ap suc (f.place) ∙ some-inj (rw (e, hit, index_of) at h);
          }
    ]
  ]

swapped-down :
    (l r : List ℕ) (a b : ℕ)
    → swapped (length l) (suc (length l)) (l ++ (a ∷ b ∷ r)) ≡ l ++ (b ∷ a ∷ r)
swapped-down [] r a b = unfold swapped in refl
swapped-down (x ∷ l) r a b =
    swapped-suc (length l) (suc (length l)) x (l ++ (a ∷ b ∷ r))
    ∙ ap (λ m. x ∷ m) (swapped-down l r a b)

swapped-up :
    (l r : List ℕ) (a b : ℕ)
    → swapped (suc (length l)) (length l) (l ++ (a ∷ b ∷ r)) ≡ l ++ (b ∷ a ∷ r)
swapped-up [] r a b = unfold swapped in refl
swapped-up (x ∷ l) r a b =
    swapped-suc (suc (length l)) (length l) x (l ++ (a ∷ b ∷ r))
    ∙ ap (λ m. x ∷ m) (swapped-up l r a b)

-- A list with something in it, from its end.
last_split :
    (x : ℕ) (l : List ℕ) → (m : List ℕ) × (z : ℕ) × (x ∷ l ≡ m ++ z ∷ []) × (length m ≡ length l)
last_split x [] = ([], x, refl, refl)
last_split x (y ∷ l) = let (m, z, e, n) = last_split y l in (x ∷ m, z, ap (λ k. x ∷ k) e, ap suc n)

module _ (id : ℤ) where
  at_end-AtEdge : (l : List ℕ) (x : ℕ) → is_nat id x ≡ true → AtEdge id false (l ++ x ∷ [])
  at_end-AtEdge [] x h = h
  at_end-AtEdge (y ∷ []) x h = h
  at_end-AtEdge (y ∷ z ∷ l) x h = at_end-AtEdge (z ∷ l) x h

  -- What `moved` does once the link is found at `i` and is to go to `to`.
  abbrev stepped : ℕ → ℕ → List ℕ → Result (List ℕ)
  stepped i to ids =
      if leb (length ids) to then err (user err_link_at_edge) else ok (swapped i to ids)

  down-Moved :
      (l r : List ℕ) (x : ℕ)
      → is_nat id x ≡ true
      → Moved id false (l ++ (x ∷ r)) (stepped (length l) (suc (length l)) (l ++ (x ∷ r)))
  down-Moved l [] x named =
      let out : leb (length (l ++ x ∷ [])) (suc (length l)) ≡ true =
        ground (arith, length-append l (x ∷ [])) in
      rw out (at_edge (at_end-AtEdge l x named))
  down-Moved l (y ∷ r) x named =
      let inside : leb (length (l ++ (x ∷ y ∷ r))) (suc (length l)) ≡ false =
        ground (arith, length-append l (x ∷ y ∷ r)) in
      rw (inside, swapped-down l r x y)
        (swap (record { before = l; first = x; second = y; behind = r; whole = refl }) named)

  pair-Moved :
      (m r : List ℕ) (z x : ℕ)
      → is_nat id x ≡ true
      → Moved id true (m ++ (z ∷ x ∷ r)) (stepped (suc (length m)) (length m) (m ++ (z ∷ x ∷ r)))
  pair-Moved m r z x named =
      let inside : leb (length (m ++ (z ∷ x ∷ r))) (length m) ≡ false =
        ground (arith, length-append m (z ∷ x ∷ r)) in
      rw (inside, swapped-up m r z x)
        (swap (record { before = m; first = z; second = x; behind = r; whole = refl }) named)

  up-Moved :
      (l r : List ℕ) (x i : ℕ)
      → is_nat id x ≡ true
      → length l ≡ suc i
      → Moved id true (l ++ (x ∷ r)) (stepped (suc i) i (l ++ (x ∷ r)))
  up-Moved [] r x i named e = absurd (omega arith)
  up-Moved (y ∷ l) r x i named e =
      let (m, z, split, n) = last_split y l in
      let at : length m ≡ i = omega arith in
      let whole : m ++ (z ∷ x ∷ r) ≡ (y ∷ l) ++ (x ∷ r) =
        sym (append_assoc m (z ∷ []) (x ∷ r)) ∙ ap (λ k. k ++ (x ∷ r)) (sym split) in
      subst₂ (λ ids k. Moved id true ids (stepped (suc k) k ids)) whole at
        (pair-Moved m r z x named)

  top-AtEdge :
      (l r : List ℕ) (x : ℕ) → is_nat id x ≡ true → length l ≡ 0 → AtEdge id true (l ++ (x ∷ r))
  top-AtEdge [] r x named e = named
  top-AtEdge (y ∷ l) r x named e = absurd (omega arith)

  -- Up or down, `moved` exchanges the link with its neighbour, unless there is none.
  Found-Moved :
      (up : Bool) (ids : List ℕ) (i : ℕ)
      → Found id ids i
      → index_of id ids ≡ some i
      → Moved id up ids (moved id up ids)
  unfolding moved target
  Found-Moved false ids i f e =
      rw (e, moved)
        (subst₂ (λ ks k. Moved id false ks (stepped k (k + 1) ks)) (sym (f.whole)) (f.place)
          (rw (add-one (length f.before)) (down-Moved f.before f.behind f.found f.named)))
  Found-Moved true ids zero f e =
      rw (e, moved)
        (at_edge (
          subst (AtEdge id true) (sym (f.whole))
            (top-AtEdge f.before f.behind f.found f.named f.place)))
  Found-Moved true ids (suc i) f e =
      rw (e, moved)
        (subst (λ ks. Moved id true ks (stepped (suc i) i ks)) (sym (f.whole))
          (up-Moved f.before f.behind f.found i f.named f.place))

  pub moved-Moved : (up : Bool) (ids : List ℕ) → Moved id up ids (moved id up ids)
  unfolding moved
  moved-Moved up ids = elim (Option-cases (index_of id ids)) [
    | inl missed ↦ rw (missed, moved) (absent (index_of-Absent id ids missed))
    | inr (i, e) ↦ Found-Moved up ids i (index_of-Found id ids i e) e
  ]
