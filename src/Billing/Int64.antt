-- ===== src/Billing/Int64.antt =====
-- `int64` as its 64 bits, read as a natural number: a negative number is its complement.
pub mod Laws
use temporal_cloud_offering.Prelude.{ℕ, ◌+◌, ◌-◌, ◌*◌, ◌/◌, ◌%◌, Bool, ltb, if◌then◌else◌}

-- 2 ^ 64 and 2 ^ 63
abbrev pub word : ℕ
word = 0x10000000000000000

abbrev pub half : ℕ
half = 0x8000000000000000

unfoldable pub add64 : ℕ → ℕ → ℕ
add64 a b = (a + b) % word

unfoldable pub sub64 : ℕ → ℕ → ℕ
sub64 a b = (a + (word - b)) % word

unfoldable pub mul64 : ℕ → ℕ → ℕ
mul64 a b = (a * b) % word

-- `a < b`, with signs
unfoldable pub lt64 : ℕ → ℕ → Bool
lt64 a b = ltb ((a + half) % word) ((b + half) % word)

-- `a / n` and `a % n` for a positive constant `n`: Go rounds toward zero.
unfoldable pub div64 : ℕ → ℕ → ℕ
div64 a n = if ltb a half then a / n else (word - (word - a) / n) % word

unfoldable pub mod64 : ℕ → ℕ → ℕ
mod64 a n = if ltb a half then a % n else (word - (word - a) % n) % word
