-- ===== src/Text/Hex/Laws.antt =====
-- The hexadecimal print of bytes: its length, its digits, and that it determines the bytes.
use temporal_cloud_offering.Prelude.{
  ℕ, ◌*◌, ◌/◌, ◌%◌, ◌≡◌, refl, ◌<◌, ◌≤◌, ◌⊎◌, ap, List, [], ◌∷◌, true, arith, length, All,
}
use temporal_cloud_offering.Text.{Text, non_empty}
use temporal_cloud_offering.Text.Hex.{hex_digit, to_hex}

pub non_empty-to_hex : (bytes : List ℕ) → 0 < length bytes → non_empty (to_hex bytes) ≡ true
unfolding to_hex
non_empty-to_hex [] h = absurd (omega arith)
non_empty-to_hex (b ∷ bytes) h = refl

-- Every byte is printed as two digits.
pub length-to_hex : (bytes : List ℕ) → length (to_hex bytes) ≡ 2 * length bytes
unfolding to_hex
length-to_hex [] = refl
length-to_hex (b ∷ bytes) = omega (arith, length-to_hex bytes)

abbrev pub IsByte : ℕ → Type 0
IsByte b = b < 256

-- One of 0 … 9 and a … f.
abbrev pub IsHexDigit : ℕ → Type 0
IsHexDigit c = ((b'0' ≤ c) × (c ≤ b'9')) ⊎ ((b'a' ≤ c) × (c ≤ b'f'))

hex_digit-IsHexDigit : (d : ℕ) → d < 16 → IsHexDigit (hex_digit d)
unfolding hex_digit
hex_digit-IsHexDigit d h = ground arith

pub to_hex-IsHexDigit : (bytes : List ℕ) → All IsByte bytes → All IsHexDigit (to_hex bytes)
unfolding to_hex
to_hex-IsHexDigit [] h = tt
to_hex-IsHexDigit (b ∷ bytes) (k, h) = (
  hex_digit-IsHexDigit (b / 16) (omega arith),
  (hex_digit-IsHexDigit (b % 16) (omega arith), to_hex-IsHexDigit bytes h),
)

hex_digit_injective : (d e : ℕ) → d < 16 → e < 16 → hex_digit d ≡ hex_digit e → d ≡ e
unfolding hex_digit
hex_digit_injective d e h k same = ground arith

abbrev first : Text → ℕ
first [] = 0
first (c ∷ s) = c

abbrev rest : Text → Text
rest [] = []
rest (c ∷ s) = s

-- Two lists of bytes with one print are equal.
to_hex_injective :
    (xs ys : List ℕ) → All IsByte xs → All IsByte ys → to_hex xs ≡ to_hex ys → xs ≡ ys
unfolding to_hex
to_hex_injective [] [] h k e = refl
to_hex_injective [] (y ∷ ys) h k e = cc
to_hex_injective (x ∷ xs) [] h k e = cc
to_hex_injective (x ∷ xs) (y ∷ ys) (hx, h) (hy, k) e =
    let high = hex_digit_injective (x / 16) (y / 16) (omega arith) (omega arith) (ap first e) in
    let low =
      hex_digit_injective (x % 16) (y % 16) (omega arith) (omega arith)
        (ap (λ s. first (rest s)) e) in
    let same : x ≡ y = omega arith in
    let others = to_hex_injective xs ys h k (ap (λ s. rest (rest s)) e) in cc
