-- ===== src/Billing/Int64/Laws.antt =====
-- The operations on numbers that are not negative.
use temporal_cloud_offering.Prelude.{ℕ, ◌+◌, ◌-◌, ◌*◌, ◌/◌, ◌%◌, ◌≤◌, ◌<◌, ◌≡◌, false, ltb, arith}
use temporal_cloud_offering.Billing.Int64.{word, half, add64, sub64, mul64, lt64, div64, mod64}

pub add64-eq : (a b : ℕ) → a + b < word → add64 a b ≡ a + b
unfolding add64
add64-eq a b h = omega arith

pub sub64-eq : (a b : ℕ) → a < word → b ≤ a → sub64 a b ≡ a - b
unfolding sub64
sub64-eq a b h k = omega arith

pub lt64-eq : (a b : ℕ) → a < half → b < half → lt64 a b ≡ ltb a b
unfolding lt64
lt64-eq a b h k = ground arith

pub lt64-negative : (a b : ℕ) → a < half → half ≤ b → b < word → lt64 a b ≡ false
unfolding lt64
lt64-negative a b h k l = ground arith

pub div64-eq : (a n : ℕ) → a < half → div64 a n ≡ a / n
unfolding div64
div64-eq a n h = ground arith

pub mod64-eq : (a n : ℕ) → a < half → mod64 a n ≡ a % n
unfolding mod64
mod64-eq a n h = ground arith

pub mul64-eq : (a b : ℕ) → a * b < word → mul64 a b ≡ a * b
unfolding mul64
mul64-eq a b h = ground arith
