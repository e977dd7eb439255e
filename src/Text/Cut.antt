-- ===== src/Text/Cut.antt =====
-- `strings.Cut` at a separator of one byte finds the first occurrence, and only that.
use link_nest.Base.{
  ℕ, ◌≡◌, refl, ap, ◌≢◌, none, some, [], ◌∷◌, ◌++◌, arith, ◌==◌, ==_iff, ==_refl, ==_ne, All,
  Bool-cases, some-inj, Option-cases, inl, inr,
}
use mathlib.Core.Option.{none-ne-some}
use link_nest.Text.Defs.{Text, cut}

abbrev pub Lacks : ℕ → Text → Type 0
Lacks sep = All (λ b. b ≢ sep)

module _ (sep : ℕ) where
  pub cut_at : (s t : Text) → Lacks sep s → cut sep (s ++ sep ∷ t) ≡ some (s, t)
  unfolding cut
  cut_at [] t h = rw (==_refl sep)
  cut_at (b ∷ s) t (p, h) = rw (==_ne b sep p, cut_at s t h)

  pub cut-Lacks : (s : Text) → Lacks sep s → cut sep s ≡ none
  unfolding cut
  cut-Lacks [] h = refl
  cut-Lacks (b ∷ s) (p, h) = rw (==_ne b sep p, cut-Lacks s h)

  abbrev pub Splits : Text → Text → Text → Type 0
  Splits s a b = Lacks sep a × (s ≡ a ++ sep ∷ b)

  pub cut-eq-some : (s a b : Text) → cut sep s ≡ some (a, b) → Splits s a b
  unfolding cut
  cut-eq-some [] a b e = cc
  cut-eq-some (c ∷ s) a b e = elim (Bool-cases (c == sep)) [
    | inl same ↦
        let found : ◌≡◌ {A = Text × Text} ([], s) (a, b) = some-inj (rw same at e) in
        let p : ◌≡◌ {A = Text} [] a = ap (λ x. x.0) found in
        let q : s ≡ b = ap (λ x. x.1) found in
        rw (← p, ← q) (tt, ap (λ x. x ∷ s) ((==_iff c sep).0 same))
    | inr other ↦ elim (Option-cases (cut sep s)) [
      | inl missed ↦ absurd (none-ne-some _ (rw (other, missed, cut) at e))
      | inr (found, e') ↦
          let (lacks, same) = cut-eq-some s found.0 found.1 e' in
          let same_pair : ◌≡◌ {A = Text × Text} (c ∷ found.0, found.1) (a, b) =
            some-inj (rw (other, e', cut) at e) in
          let p : ◌≡◌ {A = Text} (c ∷ found.0) a = ap (λ x. x.0) same_pair in
          let q : found.1 ≡ b = ap (λ x. x.1) same_pair in
          rw (← p, ← q) (((λ h. ground arith), lacks), ap (λ x. c ∷ x) same)
    ]
  ]
