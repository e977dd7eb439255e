-- ===== src/Text/Decimal/Trip.antt =====
-- Reading back a number that was written in decimal.
use link_nest.Base.{
  ℕ, pos, zero, suc, ◌+◌, ◌-◌, ◌*◌, ◌/◌, ◌%◌, ◌<◌, ◌≤◌, ◌≡◌, refl, ap, sym, ◌∙◌, inl, inr, false,
  [], ◌∷◌, arith, ltb, leb, ◌==◌, Bool-cases,
}
use Prim.Native.Nat.{◌^◌}
use link_nest.Text.Defs.{Text}
use link_nest.Text.Decimal.{
  digits_from, decimal, parsed, parse_digits, parse_uint, signed_value, parse_int, digits,
}

parse_digits-digit :
    (q d : ℕ) (rest : Text)
    → d < 10
    → q * 10 + d < 2 ^ 64
    → parse_digits q ((b'0' + d) ∷ rest) ≡ parse_digits (q * 10 + d) rest
unfolding parse_digits
parse_digits-digit q d rest small fits =
    let same : q * 10 + (48 + d - 48) ≡ q * 10 + d = omega arith in
    let low : ltb (48 + d) 48 ≡ false = ground arith in
    let high : ltb 57 (48 + d) ≡ false = ground arith in
    let fit : leb (2 ^ 64) (q * 10 + d) ≡ false = ground arith in rw (same, low, high, fit) refl

parse_digits-digits_from :
    (fuel n : ℕ) (rest : Text)
    → n < fuel
    → n < 2 ^ 64
    → parse_digits 0 (digits_from fuel n rest) ≡ parse_digits n rest
unfolding digits_from
parse_digits-digits_from zero n rest enough fits = absurd (omega arith)
parse_digits-digits_from (suc fuel) n rest enough fits = elim (Bool-cases (ltb n 10)) [
  | inl e ↦
      let small : n % 10 ≡ n = ground arith in
      let none_before : 0 * 10 + n ≡ n = omega arith in
      let step : parse_digits 0 ((b'0' + n) ∷ rest) ≡ parse_digits n rest =
        parse_digits-digit 0 n rest (ground arith) (omega arith)
        ∙ ap (λ k. parse_digits k rest) none_before in
      rw (e, small) step
  | inr e ↦
      let whole : n / 10 * 10 + n % 10 ≡ n = omega arith in
      let step : parse_digits (n / 10) ((b'0' + n % 10) ∷ rest) ≡ parse_digits n rest =
        parse_digits-digit (n / 10) (n % 10) rest (omega arith) (omega arith)
        ∙ ap (λ k. parse_digits k rest) whole in
      rw e (
        parse_digits-digits_from fuel (n / 10) ((b'0' + n % 10) ∷ rest) (ground arith) (omega arith)
        ∙ step)
]

-- A text that starts with a digit.
record StartsWithDigit (s : Text) : Type 0 where
  digit : ℕ
  others : Text
  whole : s ≡ digit ∷ others
  low : 48 ≤ digit

digits_from-StartsWithDigit :
    (fuel n : ℕ) (rest : Text) → n < fuel → StartsWithDigit (digits_from fuel n rest)
unfolding digits_from
digits_from-StartsWithDigit zero n rest enough = absurd (omega arith)
digits_from-StartsWithDigit (suc fuel) n rest enough = elim (Bool-cases (ltb n 10)) [
  | inl e ↦ rw e (record { digit = 48 + n % 10; others = rest; whole = refl; low = omega arith })
  | inr e ↦ rw e (digits_from-StartsWithDigit fuel (n / 10) ((48 + n % 10) ∷ rest) (ground arith))
]

parse_int-digits :
    (s : Text) (n : ℕ)
    → StartsWithDigit s
    → n < 2 ^ 63
    → parse_digits 0 s ≡ digits n
    → parse_int s ≡ parsed (pos n)
unfolding parse_int parse_uint signed_value
parse_int-digits s n h fits e =
    let plus : (h.digit == 43) ≡ false = ground (arith, h.low) in
    let minus : (h.digit == 45) ≡ false = ground (arith, h.low) in
    let fit : leb (2 ^ 63) n ≡ false = ground arith in
    let read : parse_digits 0 (h.digit ∷ h.others) ≡ digits n =
      ap (parse_digits 0) (sym (h.whole)) ∙ e in
    ap parse_int (h.whole) ∙ rw (parse_int, plus, minus, read, fit) refl

-- A number of the database, written in decimal, is read back by ParseInt.
pub parse_int-decimal : (n : ℕ) → n < 2 ^ 63 → parse_int (decimal n) ≡ parsed (pos n)
unfolding decimal parse_digits
parse_int-decimal n fits =
    parse_int-digits (digits_from (suc n) n []) n
      (digits_from-StartsWithDigit (suc n) n [] (omega arith)) fits
      (parse_digits-digits_from (suc n) n [] (omega arith) (omega arith))
