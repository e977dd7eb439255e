-- ===== src/Text/Utf8.antt =====
-- Runes: Go's decoder of UTF-8 (`utf8.DecodeRuneInString`, and so `range` over a string), its
-- encoder, and the functions of `strings` that go by runes. An invalid byte decodes to U+FFFD and
-- one byte is consumed.
pub mod Ascii
use mathlib.Core.List.{flat_map, flatten}
use link_nest.Base.{
  ℕ, zero, suc, ◌+◌, ◌-◌, ◌*◌, ◌/◌, ◌%◌, Bool, ◌&&◌, ◌||◌, List, [], ◌∷◌, map, leb, ltb, ◌==◌,
  if◌then◌else◌, length, take,
}
use link_nest.Text.Defs.{Text, drop_while, drop_while_end}

abbrev rune_error : ℕ
rune_error = 0xFFFD

abbrev within : ℕ → ℕ → ℕ → Bool
within lo hi b = leb lo b && leb b hi

-- The range that the second byte must lie in, by the first byte.
second_ok : ℕ → ℕ → Bool
second_ok first b =
    if first == 0xE0
    then within 0xA0 0xBF b
    else if first == 0xED
    then within 0x80 0x9F b
    else if first == 0xF0
    then within 0x90 0xBF b
    else if first == 0xF4
    then within 0x80 0x8F b
    else within 0x80 0xBF b

decode_2 : ℕ → Text → ℕ × ℕ
unfolding second_ok
decode_2 a (b ∷ _) = if second_ok a b then ((a % 32) * 64 + b % 64, 2) else (rune_error, 1)
decode_2 a _ = (rune_error, 1)

decode_3 : ℕ → Text → ℕ × ℕ
unfolding second_ok
decode_3 a (b ∷ c ∷ _) =
    if second_ok a b && within 0x80 0xBF c
    then ((a % 16) * 4096 + (b % 64) * 64 + c % 64, 3)
    else (rune_error, 1)
decode_3 a _ = (rune_error, 1)

decode_4 : ℕ → Text → ℕ × ℕ
unfolding second_ok
decode_4 a (b ∷ c ∷ d ∷ _) =
    if second_ok a b && (within 0x80 0xBF c && within 0x80 0xBF d)
    then ((a % 8) * 262144 + (b % 64) * 4096 + (c % 64) * 64 + d % 64, 4)
    else (rune_error, 1)
decode_4 a _ = (rune_error, 1)

-- The rune that starts with the byte `a`, and how many bytes it takes.
unfoldable pub decode_rune : ℕ → Text → ℕ × ℕ
unfolding decode_2 decode_3 decode_4
decode_rune a s =
    if ltb a 0x80
    then (a, 1)
    else if within 0xC2 0xDF a
    then decode_2 a s
    else if within 0xE0 0xEF a
    then decode_3 a s
    else if within 0xF0 0xF4 a
    then decode_4 a s
    else (rune_error, 1)

-- A rune with the bytes it was read from.
abbrev pub Decoded : Type 0
Decoded = ℕ × Text

-- The runes of a text in order; the number counts the bytes of the last rune still to be passed.
unfoldable pub units_from : ℕ → Text → List Decoded
unfolding decode_rune
units_from _ [] = []
units_from (suc k) (_ ∷ s) = units_from k s
units_from zero (a ∷ s) =
    let d = decode_rune a s in (d.0, take d.1 (a ∷ s)) ∷ units_from (d.1 - 1) s

abbrev pub units : Text → List Decoded
units = units_from 0

-- `[]rune(s)`, the runes that `range s` yields.
abbrev pub runes : Text → List ℕ
runes s = map (λ u. u.0) (units s)

-- `utf8.RuneCountInString(s)`.
abbrev pub rune_count : Text → ℕ
rune_count s = length (units s)

-- The bytes of a rune (`utf8.AppendRune`): U+FFFD for a surrogate or a number out of range.
unfoldable pub encode_rune : ℕ → Text
encode_rune r =
    if ltb r 0x80
    then r ∷ []
    else if ltb r 0x800
    then (0xC0 + r / 64) ∷ (0x80 + r % 64) ∷ []
    else if ltb 0x10FFFF r || within 0xD800 0xDFFF r
    then 0xEF ∷ 0xBF ∷ 0xBD ∷ []
    else if ltb r 0x10000
    then (0xE0 + r / 4096) ∷ (0x80 + r / 64 % 64) ∷ (0x80 + r % 64) ∷ []
    else (0xF0 + r / 262144) ∷ (0x80 + r / 4096 % 64) ∷ (0x80 + r / 64 % 64) ∷ (0x80 + r % 64) ∷ []

-- `unicode.IsSpace`: the White_Space property.
unfoldable pub is_space : ℕ → Bool
is_space r =
    within 9 13 r
    || r == 0x20
    || r == 0x85
    || r == 0xA0
    || r == 0x1680
    || within 0x2000 0x200A r
    || r == 0x2028
    || r == 0x2029
    || r == 0x202F
    || r == 0x205F
    || r == 0x3000

-- `strings.TrimSpace`. A start byte of UTF-8 is never a continuation byte, so the spaces that Go
-- finds from the end are those that decoding from the front finds.
unfoldable pub trim_space : Text → Text
unfolding is_space
trim_space s =
    flatten (
      map (λ u. u.1)
        (drop_while_end (λ u. is_space u.0) (drop_while (λ u. is_space u.0) (units s))))

-- `unicode.ToLower` on ASCII; the table beyond is the argument.
unfoldable pub lower_rune : (ℕ → ℕ) → ℕ → ℕ
lower_rune table r = if ltb r 0x80 then (if within b'A' b'Z' r then r + 32 else r) else table r

-- `strings.ToLower`.
unfoldable pub to_lower : (ℕ → ℕ) → Text → Text
unfolding lower_rune
to_lower table s = flat_map (λ r. encode_rune (lower_rune table r)) (runes s)
