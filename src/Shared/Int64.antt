-- ===== src/Shared/Int64.antt =====
-- Go's int64: a number is its bit pattern, below 2 ^ 64, in two's complement, and operations wrap.
use Prim.Native.Nat.{ℕ, ◌+◌, ◌-◌, ◌*◌, ◌/◌, ◌%◌, ◌≤◌, ◌<◌}
use mathlib.Core.Path.{◌≡◌}
use mathlib.Core.Bool.{Bool}
use native.Mathlib.Omega.{arith}
use evgo.Shared.Tests.{ltb, leb, if◌then◌else◌}

abbrev pub word : ℕ
word = 0x1_0000_0000_0000_0000

-- 2 ^ 63, the least pattern of a negative number
abbrev pub half : ℕ
half = 0x8000_0000_0000_0000

unfoldable pub add64 : ℕ → ℕ → ℕ
add64 a b = (a + b) % word

unfoldable pub sub64 : ℕ → ℕ → ℕ
sub64 a b = (a + word - b) % word

unfoldable pub mul64 : ℕ → ℕ → ℕ
mul64 a b = (a * b) % word

-- `a < b`
unfoldable pub less64 : ℕ → ℕ → Bool
less64 a b = ltb ((a + half) % word) ((b + half) % word)

-- `a / b` for a positive b, towards 0
unfoldable pub div64 : ℕ → ℕ → ℕ
div64 a b = if leb half a then (word - (word - a) / b) % word else a / b

pub add64_exact : (a b : ℕ) → a + b < half → add64 a b ≡ a + b
unfolding add64
add64_exact a b h = omega arith

pub sub64_exact : (a b : ℕ) → a < half → b ≤ a → sub64 a b ≡ a - b
unfolding sub64
sub64_exact a b h k = omega arith

pub less64_exact : (a b : ℕ) → a < half → b < half → less64 a b ≡ ltb a b
unfolding less64
less64_exact a b h k = ground arith

pub div64_exact : (a b : ℕ) → a < half → div64 a b ≡ a / b
unfolding div64
div64_exact a b h = ground arith

below_word : (n : ℕ) → n < half → n % word ≡ n
below_word n h = omega arith

pub mul64_exact : (a b : ℕ) → a * b < half → mul64 a b ≡ a * b
unfolding mul64
mul64_exact a b h = below_word (a * b) h

-- The wrap of a sum goes away in a difference that fits.
pub sub64-add64 :
    (a b c : ℕ) → c ≤ a + b → c < half → a + b < half + c → sub64 (add64 a b) c ≡ a + b - c
unfolding sub64 add64
sub64-add64 a b c h l k = omega arith
