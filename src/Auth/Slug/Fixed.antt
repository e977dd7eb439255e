-- ===== src/Auth/Slug/Fixed.antt =====
-- A text of the shape of a slug is its own slug.
use link_nest.Base.{ℕ, ◌≡◌, refl, inl, inr, Bool, true, false, [], ◌∷◌, ◌++◌, foldl, arith, All}
use mathlib.Core.List.{append_assoc, flatten, flat_map}
use link_nest.Text.{Text, drop_while, drop_while_end}
use link_nest.Text.Utf8.{units_from, to_lower, trim_space, is_space}
use link_nest.Text.Utf8.Ascii.{IsPlain, All-IsAscii, runes_ascii, trim_space_plain, to_lower_plain}
use link_nest.Platform.{Platform}
use link_nest.Auth.Slug.{is_slug_rune, is_empty, slug_step, slug}
use link_nest.Auth.Slug.Shape.{IsSlug, last, more, dash, trim_dashes_of_IsSlug, slug-IsSlug}

rune-IsPlain : (c : ℕ) → is_slug_rune c ≡ true → IsPlain c
unfolding is_space
rune-IsPlain c h = record { ascii = ground arith; printing = ground arith; small = ground arith }

dash-IsPlain : (c : ℕ) → c ≡ b'-' → IsPlain c
unfolding is_space
dash-IsPlain c h = record {
  ascii = omega arith;
  printing = ground arith;
  small = inl (omega arith);
}

pub IsSlug-IsPlain : {s : Text} → IsSlug s → All IsPlain s
IsSlug-IsPlain (last {c} h) = (rune-IsPlain c h, tt)
IsSlug-IsPlain (more {c} h t) = (rune-IsPlain c h, IsSlug-IsPlain t)
IsSlug-IsPlain (dash {c} {d} h e t) = (rune-IsPlain c h, (dash-IsPlain d e, IsSlug-IsPlain t))

-- The loop copies a letter or digit, and then a dash.
slug_step_rune :
    (b : Text) (d : Bool) (c : ℕ)
    → is_slug_rune c ≡ true
    → slug_step (b, d) c ≡ (b ++ c ∷ [], false)
unfolding slug_step
slug_step_rune b d c h = rw h

is_empty-append : (b : Text) (c : ℕ) → is_empty (b ++ c ∷ []) ≡ false
is_empty-append [] c = refl
is_empty-append (_ ∷ _) c = refl

slug_step_dash :
    (b : Text) (c d : ℕ)
    → d ≡ b'-'
    → slug_step (b ++ c ∷ [], false) d ≡ ((b ++ c ∷ []) ++ d ∷ [], true)
unfolding slug_step
slug_step_dash b c d e = rw (e, is_empty-append b c)

foldl-slug_step :
    {s : Text} (b : Text) (d : Bool) → IsSlug s → foldl slug_step (b, d) s ≡ (b ++ s, false)
foldl-slug_step b d (last {c} h) = slug_step_rune b d c h
foldl-slug_step b d (more {c} {s} h t) =
    rw (slug_step_rune b d c h, foldl-slug_step (b ++ c ∷ []) false t, append_assoc)
foldl-slug_step b d (dash {c} {d = e} {s} h q t) =
    rw
      (
        slug_step_rune b d c h,
        slug_step_dash b c e q,
        foldl-slug_step ((b ++ c ∷ []) ++ e ∷ []) true t,
      )
      (simp append_assoc)

-- A text made of runs of lower-case ASCII letters and digits joined by single dashes is its own
-- slug.
pub slug_of_IsSlug : (p : Platform) (s : Text) → IsSlug s → slug p s ≡ s
unfolding slug
slug_of_IsSlug p s k =
    let plain = IsSlug-IsPlain k in
    rw (
      trim_space_plain s plain,
      to_lower_plain p.lower s plain,
      runes_ascii s (All-IsAscii s plain),
      foldl-slug_step [] false k,
      trim_dashes_of_IsSlug k,
    )

slug_empty : (p : Platform) → slug p [] ≡ []
unfolding slug trim_space to_lower drop_while drop_while_end units_from flatten flat_map
slug_empty p = refl

-- Slugging twice is slugging once, for every input.
pub slug_idempotent : (p : Platform) (input : Text) → slug p (slug p input) ≡ slug p input
slug_idempotent p input = elim (slug-IsSlug p input) [
  | inl e ↦ rw e (slug_empty p)
  | inr k ↦ slug_of_IsSlug p (slug p input) k
]
