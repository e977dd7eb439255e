-- ===== src/Text/Decimal.antt =====
-- Decimal numbers: `%d` of a number from the database, and `strconv.ParseInt(s, 10, 64)`.
pub mod Trip
use link_nest.Base.{
  ℕ, ℤ, pos, negsuc, zero, suc, ◌+◌, ◌-◌, ◌*◌, ◌/◌, ◌%◌, Bool, true, false, ◌||◌, [], ◌∷◌, ltb, leb,
  ◌==◌, if◌then◌else◌,
}
use Prim.Native.Nat.{◌^◌}
use link_nest.Text.Defs.{Text}

-- The digits of `n` before `rest`; the fuel bounds the number of digits.
unfoldable digits_from : ℕ → ℕ → Text → Text
digits_from zero n rest = rest
digits_from (suc fuel) n rest =
    let d = b'0' + n % 10 in
    let higher = digits_from fuel (n / 10) (d ∷ rest) in if ltb n 10 then d ∷ rest else higher

unfoldable pub decimal : ℕ → Text
unfolding digits_from
decimal n = digits_from (suc n) n []

-- The value with a nil error, a syntax error (value 0), or a range error with the nearest value.
pub data ParsedInt : Type 0 where
  parsed : ℤ → ParsedInt
  syntax : ParsedInt
  range : ℤ → ParsedInt

-- `ParseUint`, whose loop ends at the first byte that is no digit or that overflows 64 bits; `none`
-- is a syntax error, and a range error yields 2^64 - 1.
pub data ParsedUint : Type 0 where
  digits : ℕ → ParsedUint
  bad_syntax overflow : ParsedUint

unfoldable parse_digits : ℕ → Text → ParsedUint
parse_digits n [] = digits n
parse_digits n (c ∷ s) =
    let rest = parse_digits (n * 10 + (c - b'0')) s in
    if ltb c b'0' || ltb b'9' c
    then bad_syntax
    else if leb (2 ^ 64) (n * 10 + (c - b'0'))
    then overflow
    else rest

unfoldable parse_uint : Text → ParsedUint
unfolding parse_digits
parse_uint [] = bad_syntax
parse_uint (c ∷ s) = parse_digits 0 (c ∷ s)

-- -n
negated : ℕ → ℤ
negated zero = pos 0
negated (suc n) = negsuc n

unfoldable signed_value : Bool → ParsedUint → ParsedInt
unfolding negated
signed_value neg bad_syntax = syntax
signed_value neg overflow = range (if neg then negated (2 ^ 63) else pos (2 ^ 63 - 1))
signed_value neg (digits n) =
    if neg
    then (if ltb (2 ^ 63) n then range (negated (2 ^ 63)) else parsed (negated n))
    else (if leb (2 ^ 63) n then range (pos (2 ^ 63 - 1)) else parsed (pos n))

unfoldable pub parse_int : Text → ParsedInt
unfolding parse_uint signed_value
parse_int [] = syntax
parse_int (c ∷ s) =
    if c == b'+'
    then signed_value false (parse_uint s)
    else if c == b'-'
    then signed_value true (parse_uint s)
    else signed_value false (parse_uint (c ∷ s))

-- The value that a caller gets who drops the error.
unfoldable pub value_of : ParsedInt → ℤ
value_of (parsed n) = n
value_of syntax = pos 0
value_of (range n) = n
