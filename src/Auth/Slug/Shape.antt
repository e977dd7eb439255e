-- ===== src/Auth/Slug/Shape.antt =====
-- Every slug is made of runs of letters and digits joined by single dashes, and such a text is its
-- own slug.
use link_nest.Base.{
  ℕ, ◌≡◌, refl, ◌⊎◌, inl, inr, Bool, true, false, List, [], ◌∷◌, ◌++◌, foldl, arith, Bool-cases,
}
use link_nest.Text.{Text, drop_while, drop_while_end}
use link_nest.Text.Utf8.{runes, to_lower, trim_space}
use link_nest.Platform.{Platform}
use link_nest.Auth.Slug.{is_slug_rune, is_dash, is_empty, slug_step, trim_dashes, slug}

pub data IsSlug : Text → Type 0 where
  last : {c : ℕ} → is_slug_rune c ≡ true → IsSlug (c ∷ [])
  more : {c : ℕ} {s : Text} → is_slug_rune c ≡ true → IsSlug s → IsSlug (c ∷ s)
  dash : {c d : ℕ} {s : Text} → is_slug_rune c ≡ true → d ≡ b'-' → IsSlug s → IsSlug (c ∷ d ∷ s)

IsSlug-append : {s : Text} (r : ℕ) → IsSlug s → is_slug_rune r ≡ true → IsSlug (s ++ r ∷ [])
IsSlug-append r (last h) k = more h (last k)
IsSlug-append r (more h t) k = more h (IsSlug-append r t k)
IsSlug-append r (dash h e t) k = dash h e (IsSlug-append r t k)

IsSlug-append_dash :
    {s : Text} (r : ℕ) → IsSlug s → is_slug_rune r ≡ true → IsSlug ((s ++ b'-' ∷ []) ++ r ∷ [])
IsSlug-append_dash r (last h) k = dash h refl (last k)
IsSlug-append_dash r (more h t) k = more h (IsSlug-append_dash r t k)
IsSlug-append_dash r (dash h e t) k = dash h e (IsSlug-append_dash r t k)

-- What the loop has built: nothing or a slug, or a slug and one dash.
abbrev Building : Text × Bool → Type 0
Building (b, false) = (b ≡ []) ⊎ IsSlug b
Building (b, true) = (s : Text) × IsSlug s × (b ≡ s ++ b'-' ∷ [])

IsSlug-ne-nil : {s : Text} → IsSlug s → is_empty s ≡ false
IsSlug-ne-nil (last h) = refl
IsSlug-ne-nil (more h t) = refl
IsSlug-ne-nil (dash h e t) = refl

slug_step-Building : (st : Text × Bool) (r : ℕ) → Building st → Building (slug_step st r)
unfolding slug_step
slug_step-Building (b, true) r (s, k, e) = elim (Bool-cases (is_slug_rune r)) [
  | inl w ↦ rw (w, e) (inr (IsSlug-append_dash r k w))
  | inr w ↦ rw w (s, k, e)
]
slug_step-Building (b, false) r (inl e) = elim (Bool-cases (is_slug_rune r)) [
  | inl w ↦ rw (w, e) (inr (last w))
  | inr w ↦ rw (w, e) (inl refl)
]
slug_step-Building (b, false) r (inr k) = elim (Bool-cases (is_slug_rune r)) [
  | inl w ↦ rw w (inr (IsSlug-append r k w))
  | inr w ↦ rw (w, IsSlug-ne-nil k) (b, k, refl)
]

foldl-Building : (rs : List ℕ) (st : Text × Bool) → Building st → Building (foldl slug_step st rs)
foldl-Building [] st h = h
foldl-Building (r ∷ rs) st h = foldl-Building rs (slug_step st r) (slug_step-Building st r h)

-- No dash stands at either end of a slug.
module _ (c : ℕ) (s : Text) where
  drop_while_end-cons :
      drop_while_end is_dash s ≡ s → is_empty s ≡ false → drop_while_end is_dash (c ∷ s) ≡ c ∷ s
  unfolding drop_while_end
  drop_while_end-cons e n = ground arith

drop_while-IsSlug : {s : Text} → IsSlug s → drop_while is_dash s ≡ s
unfolding drop_while
drop_while-IsSlug (last h) = ground arith
drop_while-IsSlug (more h t) = ground arith
drop_while-IsSlug (dash h e t) = ground arith

drop_while_end-IsSlug : {s : Text} → IsSlug s → drop_while_end is_dash s ≡ s
drop_while_end-IsSlug (last h) = unfold drop_while_end in ground arith
drop_while_end-IsSlug (more {c} {s} h t) =
    drop_while_end-cons c s (drop_while_end-IsSlug t) (IsSlug-ne-nil t)
drop_while_end-IsSlug (dash {c} {d} {s} h e t) =
    drop_while_end-cons c (d ∷ s)
      (drop_while_end-cons d s (drop_while_end-IsSlug t) (IsSlug-ne-nil t)) refl

drop_while_end-append_dash :
    (s : Text) → drop_while_end is_dash (s ++ b'-' ∷ []) ≡ drop_while_end is_dash s
unfolding drop_while_end
drop_while_end-append_dash [] = refl
drop_while_end-append_dash (c ∷ s) = rw (drop_while_end-append_dash s)

drop_while-append_dash :
    {s : Text} → IsSlug s → drop_while is_dash (s ++ b'-' ∷ []) ≡ s ++ b'-' ∷ []
unfolding drop_while
drop_while-append_dash (last h) = ground arith
drop_while-append_dash (more h t) = ground arith
drop_while-append_dash (dash h e t) = ground arith

pub trim_dashes_of_IsSlug : {s : Text} → IsSlug s → trim_dashes s ≡ s
unfolding trim_dashes
trim_dashes_of_IsSlug k = rw (drop_while-IsSlug k) (drop_while_end-IsSlug k)

trim_dashes-Building :
    (st : Text × Bool) → Building st → (trim_dashes st.0 ≡ []) ⊎ IsSlug (trim_dashes st.0)
unfolding trim_dashes
trim_dashes-Building (b, true) (s, k, e) =
    inr (rw (e, drop_while-append_dash k, drop_while_end-append_dash s, drop_while_end-IsSlug k) k)
trim_dashes-Building (b, false) (inl e) = inl (rw e (unfold drop_while drop_while_end in refl))
trim_dashes-Building (b, false) (inr k) = inr (rw (trim_dashes_of_IsSlug k) k)

-- Whatever the input, its slug is empty or is made of runs of lower-case ASCII letters and digits
-- joined by single dashes, with no dash at either end.
pub slug-IsSlug : (p : Platform) (input : Text) → (slug p input ≡ []) ⊎ IsSlug (slug p input)
unfolding slug
slug-IsSlug p input =
    trim_dashes-Building _
      (foldl-Building (runes (to_lower p.lower (trim_space input))) ([], false) (inl refl))
