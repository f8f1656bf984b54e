-- ===== src/Base/Int64.antt =====
-- `int64` as its bit pattern, a number below 2 ^ 64, with the wrap-around of Go's operations.
use Prim.Native.Nat.{ℕ, ◌+◌, ◌-◌, ◌*◌, ◌/◌, ◌%◌, ◌^◌}
use mathlib.Core.Bool.{Bool}
use lgobase.Base.Tests.{ltb, if◌then◌else◌}

abbrev pub word_size : ℕ
word_size = 2 ^ 64

abbrev pub sign_bit : ℕ
sign_bit = 2 ^ 63

-- `a + b` and `a - b`.
unfoldable pub add_64 : ℕ → ℕ → ℕ
add_64 a b = (a + b) % word_size

unfoldable pub sub_64 : ℕ → ℕ → ℕ
sub_64 a b = (a + word_size - b) % word_size

-- `a << k`.
unfoldable pub shl_64 : ℕ → ℕ → ℕ
shl_64 a k = a * 2 ^ k % word_size

-- `a >> k`, which keeps the sign.
unfoldable pub shr_64 : ℕ → ℕ → ℕ
shr_64 a k = if ltb a sign_bit then a / 2 ^ k else word_size - 1 - (word_size - 1 - a) / 2 ^ k

-- `a < b`, of signed numbers.
unfoldable pub less_64 : ℕ → ℕ → Bool
less_64 a b = ltb ((a + sign_bit) % word_size) ((b + sign_bit) % word_size)
