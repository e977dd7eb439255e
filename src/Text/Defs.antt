-- ===== src/Text/Defs.antt =====
-- Texts, literals, and the searches of Go's `strings` package.
use Prim.Native.Char.{code}
use link_nest.Base.{
  ℕ, ◌<◌, String, ◌≡◌, refl, Bool, true, false, ◌&&◌, ◌||◌, Option, none, some, List, [], ◌∷◌,
  arith, ◌==◌, if◌then◌else◌, All,
}

abbrev pub Text : Type 0
Text = List ℕ

-- The bytes of an ASCII literal.
abbrev pub lit : String → Text
lit String.[] = []
lit (String.◌∷◌ c s) = code c ∷ lit s

-- Every element is a byte.
abbrev pub IsBytes : Text → Type 0
IsBytes = All (λ b. b < 256)

-- `s == t` on strings.
unfoldable pub equals : Text → Text → Bool
equals [] [] = true
equals (a ∷ s) (b ∷ t) = a == b && equals s t
equals _ _ = false

pub equals_sound : (s t : Text) → equals s t ≡ true → s ≡ t
unfolding equals
equals_sound [] [] h = refl
equals_sound [] (b ∷ t) h = cc
equals_sound (a ∷ s) [] h = cc
equals_sound (a ∷ s) (b ∷ t) h = ground (arith, equals_sound s t)

pub equals_refl : (s : Text) → equals s s ≡ true
unfolding equals
equals_refl [] = refl
equals_refl (a ∷ s) = ground (arith, equals_refl s)

-- `strings.HasPrefix(s, p)`.
unfoldable pub has_prefix : Text → Text → Bool
has_prefix s [] = true
has_prefix [] (_ ∷ _) = false
has_prefix (a ∷ s) (b ∷ p) = a == b && has_prefix s p

-- `strings.Contains(s, p)`.
unfoldable pub contains : Text → Text → Bool
unfolding has_prefix
contains [] p = has_prefix [] p
contains (a ∷ s) p = has_prefix (a ∷ s) p || contains s p

-- `strings.Cut(s, sep)` at a separator of one byte: the parts around its first occurrence.
unfoldable pub cut : ℕ → Text → Option (Text × Text)
cut sep [] = none
cut sep (b ∷ s) =
    if b == sep
    then some ([], s)
    else elim (cut sep s) [ none ↦ none | some (before, after) ↦ some (b ∷ before, after) ]

-- `strings.Split(s, sep)[0]` at a separator of one byte.
unfoldable pub split_head : ℕ → Text → Text
split_head sep [] = []
split_head sep (b ∷ s) = if b == sep then [] else b ∷ split_head sep s

-- Dropping from either end while a test holds.
module _ {ℓ} {A : Type ℓ} (p : A → Bool) where
  unfoldable pub drop_while : List A → List A
  drop_while [] = []
  drop_while (a ∷ s) = if p a then drop_while s else a ∷ s

  unfoldable pub drop_while_end : List A → List A
  drop_while_end [] = []
  drop_while_end (a ∷ s) = elim (drop_while_end s) [
    | [] ↦ (if p a then [] else a ∷ [])
    | b ∷ t ↦ a ∷ b ∷ t
  ]

  pub drop_while_end-cons :
      (a : A) (s : List A) → p a ≡ false → drop_while_end (a ∷ s) ≡ a ∷ drop_while_end s
  unfolding drop_while_end
  drop_while_end-cons a s h = ground arith
