-- ===== src/Int.antt =====
-- Python's `int`: `negsuc n` is -(n + 1).
use movie_reservation_agent.Prelude.{
  ℕ, zero, suc, ◌+◌, ◌*◌, ◌/◌, ◌-◌, ◌≤◌, ◌≡◌, refl, Bool, true, false, arith, ltb, if◌then◌else◌,
}

pub data ℤ : Type 0 where
  pos : ℕ → ℤ
  negsuc : ℕ → ℤ

-- - n
abbrev pub neg : ℕ → ℤ
neg zero = pos 0
neg (suc n) = negsuc n

-- `a * n`
abbrev pub mul_ℕ : ℤ → ℕ → ℤ
mul_ℕ (pos a) n = pos (a * n)
mul_ℕ (negsuc a) n = neg (suc a * n)

-- `a / n`, rounded towards 0, of a positive `n`.
abbrev pub div_ℕ : ℤ → ℕ → ℤ
div_ℕ (pos a) n = pos (a / n)
div_ℕ (negsuc a) n = neg (suc a / n)

-- `a < b`
abbrev pub lt : ℤ → ℤ → Bool
lt (pos a) (pos b) = ltb a b
lt (pos a) (negsuc b) = false
lt (negsuc a) (pos b) = true
lt (negsuc a) (negsuc b) = ltb b a

abbrev pub pos_part : ℤ → ℕ
pos_part (pos n) = n
pos_part (negsuc n) = 0

abbrev pub neg_part : ℤ → ℕ
neg_part (pos n) = 0
neg_part (negsuc n) = suc n

-- `a <= b`
infix 50 ◌≤ℤ◌
abbrev pub ◌≤ℤ◌ : ℤ → ℤ → Type 0
a ≤ℤ b = pos_part a + neg_part b ≤ pos_part b + neg_part a

-- `b - a`, where `b` is not less than `a`.
abbrev pub gap : ℤ → ℤ → ℕ
gap a b = pos_part b + neg_part a - (pos_part a + neg_part b)

-- The difference of two natural numbers, as an integer.
abbrev pub sub_ℕ : ℕ → ℕ → ℤ
sub_ℕ a b = if ltb a b then negsuc (b - a - 1) else pos (a - b)

-- `a + n`
abbrev pub add_ℕ : ℤ → ℕ → ℤ
add_ℕ a n = sub_ℕ (pos_part a + n) (neg_part a)

pub lt-le : (a b : ℤ) → lt b a ≡ false → a ≤ℤ b
lt-le (pos a) (pos b) h = ground arith
lt-le (pos a) (negsuc b) h = ground arith
lt-le (negsuc a) (pos b) h = omega arith
lt-le (negsuc a) (negsuc b) h = ground arith

pub le-lt : (a b : ℤ) → a ≤ℤ b → lt b a ≡ false
le-lt (pos a) (pos b) h = ground arith
le-lt (pos a) (negsuc b) h = absurd (omega arith)
le-lt (negsuc a) (pos b) h = refl
le-lt (negsuc a) (negsuc b) h = ground arith

-- Adding at most the gap stays between the ends.
pub add_ℕ_bounds : (a b : ℤ) (n : ℕ) → a ≤ℤ b → n ≤ gap a b → (a ≤ℤ add_ℕ a n) × (add_ℕ a n ≤ℤ b)
add_ℕ_bounds (pos a) (pos b) n h k = ground arith
add_ℕ_bounds (pos a) (negsuc b) n h k = absurd (omega arith)
add_ℕ_bounds (negsuc a) (pos b) n h k = ground arith
add_ℕ_bounds (negsuc a) (negsuc b) n h k = ground arith
