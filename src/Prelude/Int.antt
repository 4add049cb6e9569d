-- ===== src/Prelude/Int.antt =====
-- Signed integers: an `int64` is an integer whose range is a hypothesis.
use Prim.Native.Nat.{ℕ, zero, suc, ◌+◌, ◌<◌, ◌^◌, ◌-◌, ◌%◌}
use mathlib.Core.Bool.{Bool, true, false}
use authlib.Prelude.Tests.{ltb, leb, if◌then◌else◌}

-- `negsuc n` is -(n + 1).
pub data ℤ : Type 0 where
  pos : ℕ → ℤ
  negsuc : ℕ → ℤ

-- `a < b`
unfoldable pub lt_ℤ : ℤ → ℤ → Bool
lt_ℤ (pos a) (pos b) = ltb a b
lt_ℤ (pos a) (negsuc b) = false
lt_ℤ (negsuc a) (pos b) = true
lt_ℤ (negsuc a) (negsuc b) = ltb b a

-- `a == b`
unfoldable pub eq_ℤ : ℤ → ℤ → Bool
eq_ℤ (pos a) (pos b) = if leb a b then leb b a else false
eq_ℤ (pos a) (negsuc b) = false
eq_ℤ (negsuc a) (pos b) = false
eq_ℤ (negsuc a) (negsuc b) = if leb a b then leb b a else false

-- `-n`, `a - b` over the natural numbers, and `a - b`.
unfoldable pub neg : ℕ → ℤ
neg zero = pos 0
neg (suc n) = negsuc n

unfoldable pub sub_ℕ : ℕ → ℕ → ℤ
sub_ℕ a b = if leb b a then pos (a - b) else negsuc (b - a - 1)

infixl 65 ◌-ℤ◌
unfoldable pub ◌-ℤ◌ : ℤ → ℤ → ℤ
unfolding sub_ℕ
◌-ℤ◌ (pos a) (pos b) = sub_ℕ a b
◌-ℤ◌ (pos a) (negsuc b) = pos (a + b + 1)
◌-ℤ◌ (negsuc a) (pos b) = negsuc (a + b)
◌-ℤ◌ (negsuc a) (negsuc b) = sub_ℕ (b + 1) (a + 1)

-- The values of a Go `int64`.
abbrev pub InInt64 : ℤ → Type 0
InInt64 (pos n) = n < 2 ^ 63
InInt64 (negsuc n) = n < 2 ^ 63

abbrev pub IsPositive : ℤ → Type 0
IsPositive (pos n) = 0 < n
IsPositive (negsuc n) = ⊥

-- An integer held to the range of an `int64`.
unfoldable pub saturate : ℤ → ℤ
saturate (pos n) = if ltb n (2 ^ 63) then pos n else pos (2 ^ 63 - 1)
saturate (negsuc n) = if ltb n (2 ^ 63) then negsuc n else negsuc (2 ^ 63 - 1)

-- The low 64 bits of an integer, and the `int64` that 64 bits stand for.
unfoldable pub word64 : ℤ → ℕ
word64 (pos n) = n % 2 ^ 64
word64 (negsuc n) = 2 ^ 64 - 1 - n % 2 ^ 64

unfoldable pub signed64 : ℕ → ℤ
signed64 w = if ltb w (2 ^ 63) then pos w else negsuc (2 ^ 64 - w - 1)

-- The `int64` that an operation gives whose exact result is the integer.
unfoldable pub wrap_int64 : ℤ → ℤ
wrap_int64 a = signed64 (word64 a)
