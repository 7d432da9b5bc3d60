-- ===== src/Word.antt =====
-- `unsigned` and `unsigned long` arithmetic: native numbers below 2 ^ 32 and 2 ^ 64, which wrap.
use libgomp.Prelude.{ℕ, ◌+◌, ◌-◌, ◌*◌, ◌%◌, ◌^◌, ◌<◌, ◌≤◌, ◌≡◌, arith}

abbrev pub word32 : ℕ
word32 = 2 ^ 32

abbrev pub word64 : ℕ
word64 = 2 ^ 64

unfoldable pub add32 : ℕ → ℕ → ℕ
add32 a b = (a + b) % 2 ^ 32

unfoldable pub sub32 : ℕ → ℕ → ℕ
sub32 a b = (a + 2 ^ 32 - b) % 2 ^ 32

unfoldable pub add64 : ℕ → ℕ → ℕ
add64 a b = (a + b) % 2 ^ 64

unfoldable pub sub64 : ℕ → ℕ → ℕ
sub64 a b = (a + 2 ^ 64 - b) % 2 ^ 64

unfoldable pub mul64 : ℕ → ℕ → ℕ
mul64 a b = a * b % 2 ^ 64

pub add32_exact : (a b : ℕ) → a + b < word32 → add32 a b ≡ a + b
unfolding add32
add32_exact a b h = omega arith

pub sub32_exact : (a b : ℕ) → b ≤ a → a < word32 → sub32 a b ≡ a - b
unfolding sub32
sub32_exact a b p q = omega arith

pub add64_exact : (a b : ℕ) → a + b < word64 → add64 a b ≡ a + b
unfolding add64
add64_exact a b h = omega arith

pub sub64_exact : (a b : ℕ) → b ≤ a → a < word64 → sub64 a b ≡ a - b
unfolding sub64
sub64_exact a b p q = omega arith

pub mul64_exact : (a b : ℕ) → a * b < word64 → mul64 a b ≡ a * b
unfolding mul64
mul64_exact a b h = omega arith
