-- ===== src/Text/Utf8/Ascii.antt =====
-- On ASCII text the decoder yields the bytes, and the functions by runes act byte by byte.
use mathlib.Core.List.{flat_map, flatten}
use link_nest.Base.{
  ℕ, suc, ◌<◌, ◌≡◌, refl, ap, ◌∙◌, ◌⊎◌, Bool, false, [], ◌∷◌, map, arith, All, length,
}
use link_nest.Text.Defs.{Text, drop_while, drop_while_end, drop_while_end-cons}
use link_nest.Text.Utf8.{
  Decoded, decode_rune, units_from, units, runes, rune_count, encode_rune, is_space, trim_space,
  lower_rune, to_lower,
}

abbrev pub IsAscii : Text → Type 0
IsAscii = All (λ b. b < 128)

abbrev byte_unit : ℕ → Decoded
byte_unit b = (b, b ∷ [])

decode_rune_ascii : (a : ℕ) (s : Text) → a < 128 → decode_rune a s ≡ (a, 1)
unfolding decode_rune
decode_rune_ascii a s h = ground arith

pub units_ascii : (s : Text) → IsAscii s → units s ≡ map byte_unit s
unfolding units_from
units_ascii [] h = refl
units_ascii (a ∷ s) (p, h) =
    rw (decode_rune_ascii a s p) (ap (λ u. byte_unit a ∷ u) (units_ascii s h))

map-byte_unit : (s : Text) → map (λ (u : Decoded). u.0) (map byte_unit s) ≡ s
map-byte_unit [] = refl
map-byte_unit (a ∷ s) = ap (λ t. a ∷ t) (map-byte_unit s)

pub runes_ascii : (s : Text) → IsAscii s → runes s ≡ s
runes_ascii s h = rw (units_ascii s h) (map-byte_unit s)

length-map-byte_unit : (s : Text) → length (map byte_unit s) ≡ length s
length-map-byte_unit [] = refl
length-map-byte_unit (a ∷ s) = ap suc (length-map-byte_unit s)

pub rune_count_ascii : (s : Text) → IsAscii s → rune_count s ≡ length s
rune_count_ascii s h = rw (units_ascii s h) (length-map-byte_unit s)

-- A byte that is ASCII, no space, and no upper-case letter.
pub record IsPlain (b : ℕ) : Type 0 where
  pub ascii : b < 128
  pub printing : is_space b ≡ false
  pub small : (b < 65) ⊎ (90 < b)

pub All-IsAscii : (s : Text) → All IsPlain s → IsAscii s
All-IsAscii [] h = tt
All-IsAscii (b ∷ s) (p, h) = (p.ascii, All-IsAscii s h)

space_unit : Decoded → Bool
space_unit u = is_space u.0

drop_while_plain :
    (s : Text) → All IsPlain s → drop_while space_unit (map byte_unit s) ≡ map byte_unit s
unfolding drop_while space_unit
drop_while_plain [] h = refl
drop_while_plain (b ∷ s) (p, h) = rw (p.printing)

drop_while_end_plain :
    (s : Text) → All IsPlain s → drop_while_end space_unit (map byte_unit s) ≡ map byte_unit s
drop_while_end_plain [] h = unfold drop_while_end in refl
drop_while_end_plain (b ∷ s) (p, h) =
    drop_while_end-cons space_unit (byte_unit b) (map byte_unit s) (unfold space_unit in p.printing)
    ∙ ap (λ t. byte_unit b ∷ t) (drop_while_end_plain s h)

flatten-byte_unit : (s : Text) → flatten (map (λ (u : Decoded). u.1) (map byte_unit s)) ≡ s
unfolding flatten
flatten-byte_unit [] = refl
flatten-byte_unit (b ∷ s) = ap (λ t. b ∷ t) (flatten-byte_unit s)

pub trim_space_plain : (s : Text) → All IsPlain s → trim_space s ≡ s
unfolding trim_space space_unit
trim_space_plain s h =
    rw (units_ascii s (All-IsAscii s h), drop_while_plain s h, drop_while_end_plain s h)
      (flatten-byte_unit s)

encode-lower_plain : (table : ℕ → ℕ) (b : ℕ) → IsPlain b → encode_rune (lower_rune table b) ≡ b ∷ []
unfolding encode_rune lower_rune
encode-lower_plain table b h = ground arith

flat_map_plain :
    (table : ℕ → ℕ) (s : Text)
    → All IsPlain s
    → flat_map (λ r. encode_rune (lower_rune table r)) s ≡ s
unfolding flat_map
flat_map_plain table [] h = refl
flat_map_plain table (b ∷ s) (p, h) = rw (encode-lower_plain table b p, flat_map_plain table s h)

pub to_lower_plain : (table : ℕ → ℕ) (s : Text) → All IsPlain s → to_lower table s ≡ s
unfolding to_lower
to_lower_plain table s h = rw (runes_ascii s (All-IsAscii s h)) (flat_map_plain table s h)
