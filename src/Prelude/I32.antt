-- ===== src/Prelude/I32.antt =====
-- Rust's `i32` as its bit pattern, a number below 2^32: the operations wrap around, and the order is
-- that of the signed values, read by moving the sign bit. A value below 2^31 stands for itself.
use Prim.Native.Nat.{ℕ, ◌+◌, ◌-◌, ◌*◌, ◌/◌, ◌%◌, ◌^◌, ◌≤◌, ◌<◌}
use mathlib.Core.Path.{◌≡◌}
use mathlib.Core.Bool.{Bool, true, false, not, ◌&&◌, ◌||◌}
use native.Mathlib.Omega.{arith}
use webrender.Prelude.Tests.{leb, ◌==◌, if◌then◌else◌}
use webrender.Prelude.Outcome.{Run, done, panic}

abbrev pub i32_mod : ℕ
i32_mod = 2 ^ 32

-- The first value that is not a non-negative `i32`.
abbrev pub i32_half : ℕ
i32_half = 2 ^ 31

unfoldable pub add_i32 : ℕ → ℕ → ℕ
add_i32 a b = (a + b) % i32_mod

unfoldable pub sub_i32 : ℕ → ℕ → ℕ
sub_i32 a b = (a + (i32_mod - b % i32_mod)) % i32_mod

unfoldable pub mul_i32 : ℕ → ℕ → ℕ
mul_i32 a b = (a * b) % i32_mod

-- The signed value plus 2^31.
biased : ℕ → ℕ
biased a = (a + i32_half) % i32_mod

unfoldable pub le_i32 : ℕ → ℕ → Bool
unfolding biased
le_i32 a b = leb (biased a) (biased b)

-- `a > b`
unfoldable pub gt_i32 : ℕ → ℕ → Bool
gt_i32 a b = not (le_i32 a b)

pub add_i32-eq : (a b : ℕ) → a + b < i32_half → add_i32 a b ≡ a + b
unfolding add_i32
add_i32-eq a b h = omega arith

pub sub_i32-eq : (a b : ℕ) → b ≤ a → a < i32_half → sub_i32 a b ≡ a - b
unfolding sub_i32
sub_i32-eq a b h k = omega arith

pub le_i32-leb : (a b : ℕ) → a < i32_half → b < i32_half → le_i32 a b ≡ leb a b
unfolding le_i32
le_i32-leb a b h k = ground arith

pub le_i32_refl : (a : ℕ) → le_i32 a a ≡ true
unfolding le_i32
le_i32_refl a = ground arith

pub le_i32_total : (a b : ℕ) → le_i32 a b ≡ false → le_i32 b a ≡ true
unfolding le_i32
le_i32_total a b h = ground (arith, h)

pub le_i32_trans : (a b c : ℕ) → le_i32 a b ≡ true → le_i32 b c ≡ true → le_i32 a c ≡ true
unfolding le_i32
le_i32_trans a b c h k = ground (arith, h, k)

-- A negative number is below every non-negative one.
pub le_i32_negative : (a b : ℕ) → a < i32_half → i32_half ≤ b → b < i32_mod → le_i32 a b ≡ false
unfolding le_i32
le_i32_negative a b h k l = ground arith

abbrev pub is_negative : ℕ → Bool
is_negative a = leb i32_half a

abbrev pub neg_i32 : ℕ → ℕ
neg_i32 a = (i32_mod - a) % i32_mod

abbrev pub abs_i32 : ℕ → ℕ
abs_i32 a = if is_negative a then i32_mod - a else a

-- Division rounds toward zero. A zero divisor panics, and so does the one quotient that is too large.
unfoldable pub div_i32 : ℕ → ℕ → Run ℕ
div_i32 a b =
    if b == 0 || a == i32_half && b == i32_mod - 1
    then panic
    else if is_negative a
    then done (if is_negative b then abs_i32 a / abs_i32 b else neg_i32 (abs_i32 a / abs_i32 b))
    else done (if is_negative b then neg_i32 (a / abs_i32 b) else a / b)

pub div_i32-eq : (a b : ℕ) → a < i32_half → 1 ≤ b → b < i32_half → div_i32 a b ≡ done (a / b)
unfolding div_i32
div_i32-eq a b h positive k = ground arith
