-- ===== src/Text/Base64.antt =====
-- `base64.RawURLEncoding`: the URL-safe alphabet without padding. The decoder is Go's: line breaks
-- are skipped, and the bits that a short last group leaves over are ignored.
use link_nest.Base.{
  ℕ, ◌∙◌, ap, ◌≢◌, ◌+◌, ◌-◌, ◌*◌, ◌/◌, ◌%◌, ◌<◌, ◌≡◌, refl, ◌||◌, ◌&&◌, Option, none, some, [], ◌∷◌,
  arith, leb, ltb, ◌==◌, if◌then◌else◌, All,
}
use link_nest.Text.Defs.{Text, IsBytes}

-- The letter of a number below 64.
unfoldable pub letter : ℕ → ℕ
letter n =
    if ltb n 26
    then b'A' + n
    else if ltb n 52
    then b'a' + (n - 26)
    else if ltb n 62
    then b'0' + (n - 52)
    else if n == 62
    then b'-'
    else b'_'

unfoldable pub sextet : ℕ → Option ℕ
sextet c =
    if leb b'A' c && leb c b'Z'
    then some (c - b'A')
    else if leb b'a' c && leb c b'z'
    then some (c - b'a' + 26)
    else if leb b'0' c && leb c b'9'
    then some (c - b'0' + 52)
    else if c == b'-'
    then some 62
    else if c == b'_'
    then some 63
    else none

unfoldable pub encode : Text → Text
unfolding letter
encode [] = []
encode (a ∷ []) = letter (a / 4) ∷ letter (a % 4 * 16) ∷ []
encode (a ∷ b ∷ []) = letter (a / 4) ∷ letter (a % 4 * 16 + b / 16) ∷ letter (b % 16 * 4) ∷ []
encode (a ∷ b ∷ c ∷ s) =
    letter (a / 4)
    ∷ letter (a % 4 * 16 + b / 16)
    ∷ letter (b % 16 * 4 + c / 64)
    ∷ letter (c % 64)
    ∷ encode s

infixl 5 ◌>>=◌
abbrev ◌>>=◌ {ℓ κ} : {A : Type ℓ} {B : Type κ} → Option A → (A → Option B) → Option B
none >>= f = none
some a >>= f = f a

-- Groups of four letters, with no line break among them.
unfoldable pub decode_groups : Text → Option Text
unfolding sextet
decode_groups [] = some []
decode_groups (a ∷ []) = none
decode_groups (a ∷ b ∷ []) = do x ← sextet a; y ← sextet b; some ((x * 4 + y / 16) ∷ [])
decode_groups (a ∷ b ∷ c ∷ []) = do
  x ← sextet a
  y ← sextet b
  z ← sextet c
  some ((x * 4 + y / 16) ∷ (y % 16 * 16 + z / 4) ∷ [])
decode_groups (a ∷ b ∷ c ∷ d ∷ s) = do
  x ← sextet a
  y ← sextet b
  z ← sextet c
  w ← sextet d
  rest ← decode_groups s
  some ((x * 4 + y / 16) ∷ (y % 16 * 16 + z / 4) ∷ (z % 4 * 64 + w) ∷ rest)

unfoldable pub drop_line_breaks : Text → Text
drop_line_breaks [] = []
drop_line_breaks (c ∷ s) =
    let rest = drop_line_breaks s in if c == 10 || c == 13 then rest else c ∷ rest

unfoldable pub decode : Text → Option Text
unfolding decode_groups drop_line_breaks
decode s = decode_groups (drop_line_breaks s)

sextet-letter : (n : ℕ) → n < 64 → sextet (letter n) ≡ some n
unfolding sextet letter
sextet-letter n h = ground arith

-- Every letter is a dash or lies above the dot, so it is neither a line break nor a dot.
abbrev pub IsLetter : ℕ → Type 0
IsLetter c = (c ≢ b'.') × (c ≢ 10) × (c ≢ 13)

letter-IsLetter : (n : ℕ) → n < 64 → IsLetter (letter n)
unfolding letter
letter-IsLetter n h = ground arith

pub encode-IsLetter : (s : Text) → IsBytes s → All IsLetter (encode s)
unfolding encode
encode-IsLetter [] h = tt
encode-IsLetter (a ∷ []) (p, _) =
    (letter-IsLetter (a / 4) (omega arith), (letter-IsLetter (a % 4 * 16) (omega arith), tt))
encode-IsLetter (a ∷ b ∷ []) (p, (q, _)) = (
  letter-IsLetter (a / 4) (omega arith),
  (
    letter-IsLetter (a % 4 * 16 + b / 16) (omega arith),
    (letter-IsLetter (b % 16 * 4) (omega arith), tt),
  ),
)
encode-IsLetter (a ∷ b ∷ c ∷ s) (p, (q, (r, h))) = (
  letter-IsLetter (a / 4) (omega arith),
  (
    letter-IsLetter (a % 4 * 16 + b / 16) (omega arith),
    (
      letter-IsLetter (b % 16 * 4 + c / 64) (omega arith),
      (letter-IsLetter (c % 64) (omega arith), encode-IsLetter s h),
    ),
  ),
)

drop_line_breaks_of_IsLetter : (s : Text) → All IsLetter s → drop_line_breaks s ≡ s
unfolding drop_line_breaks
drop_line_breaks_of_IsLetter [] h = refl
drop_line_breaks_of_IsLetter (c ∷ s) (p, h) = ground (arith, drop_line_breaks_of_IsLetter s h)

module _ (x y : ℕ) (p : x < 64) (q : y < 64) where
  decode-two : decode_groups (letter x ∷ letter y ∷ []) ≡ some ((x * 4 + y / 16) ∷ [])
  unfolding decode_groups
  decode-two = rw (sextet-letter x p, sextet-letter y q)

  module _ (z : ℕ) (r : z < 64) where
    decode-three :
        decode_groups (letter x ∷ letter y ∷ letter z ∷ [])
        ≡ some ((x * 4 + y / 16) ∷ (y % 16 * 16 + z / 4) ∷ [])
    unfolding decode_groups
    decode-three = rw (sextet-letter x p, sextet-letter y q, sextet-letter z r)

    decode-four :
        (w : ℕ) (s : Text) {t : Text}
        → w < 64
        → decode_groups s ≡ some t
        → decode_groups (letter x ∷ letter y ∷ letter z ∷ letter w ∷ s)
          ≡ some ((x * 4 + y / 16) ∷ (y % 16 * 16 + z / 4) ∷ (z % 4 * 64 + w) ∷ t)
    unfolding decode_groups
    decode-four w s h e =
        rw (sextet-letter x p, sextet-letter y q, sextet-letter z r, sextet-letter w h, e)

decode_groups-encode : (s : Text) → IsBytes s → decode_groups (encode s) ≡ some s
unfolding encode
decode_groups-encode [] h = unfold decode_groups in refl
decode_groups-encode (a ∷ []) (p, _) =
    decode-two (a / 4) (a % 4 * 16) (omega arith) (omega arith) ∙ ap some (ground arith)
decode_groups-encode (a ∷ b ∷ []) (p, (q, _)) =
    decode-three (a / 4) (a % 4 * 16 + b / 16) (omega arith) (omega arith) (b % 16 * 4)
      (omega arith)
    ∙ ap some (ground arith)
decode_groups-encode (a ∷ b ∷ c ∷ s) (p, (q, (r, h))) =
    decode-four (a / 4) (a % 4 * 16 + b / 16) (omega arith) (omega arith) (b % 16 * 4 + c / 64)
      (omega arith) (c % 64) (encode s) (omega arith) (decode_groups-encode s h)
    ∙ ap some (ground arith)

-- Decoding undoes encoding.
pub decode-encode : (s : Text) → IsBytes s → decode (encode s) ≡ some s
unfolding decode
decode-encode s h =
    rw (drop_line_breaks_of_IsLetter (encode s) (encode-IsLetter s h)) (decode_groups-encode s h)
