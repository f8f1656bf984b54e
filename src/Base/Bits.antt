-- ===== src/Base/Bits.antt =====
-- `|` and `&` of Go on fields that do not overlap, as arithmetic.
use Prim.Native.Nat.{
  ℕ, zero, suc, ◌+◌, ◌-◌, ◌*◌, ◌/◌, ◌%◌, ◌^◌, ◌≤◌, ◌<◌, min, max, bit_and, bit_or, digits,
  bit_and-bitwise, bit_or-bitwise,
}
use mathlib.Core.Path.{◌≡◌, refl, ap, ap₂, ◌∙◌}
use native.Mathlib.Nat.{pow-suc, one-le-pow}
use native.Mathlib.Omega.{arith}

-- More digits to go than the first number has change nothing.
digits_more :
    (none_left : ℕ → ℕ) (op : ℕ → ℕ → ℕ) (n m x y : ℕ)
    → x ≤ n
    → x ≤ m
    → digits none_left op n x y ≡ digits none_left op m x y
digits_more r op zero zero x y h k = refl
digits_more r op zero (suc m) zero y h k = refl
digits_more r op zero (suc m) (suc x) y h k = absurd (omega arith)
digits_more r op (suc n) zero zero y h k = refl
digits_more r op (suc n) zero (suc x) y h k = absurd (omega arith)
digits_more r op (suc n) (suc m) zero y h k = refl
digits_more r op (suc n) (suc m) (suc x) y h k =
    ap (λ t. t * 2 + op (suc x % 2) (y % 2))
      (digits_more r op n m (suc x / 2) (y / 2) (omega arith) (omega arith))

-- The lowest digit and the others.
or_lowest : (x y : ℕ) → bit_or x y ≡ bit_or (x / 2) (y / 2) * 2 + max (x % 2) (y % 2)
or_lowest zero y = omega (arith, bit_or-bitwise 0 y, bit_or-bitwise 0 (y / 2))
or_lowest (suc x) y = omega (
  arith,
  bit_or-bitwise (suc x) y,
  bit_or-bitwise (suc x / 2) (y / 2),
  digits_more (λ b. b) max x (suc x / 2) (suc x / 2) (y / 2) (omega arith) (omega arith),
)

and_lowest : (x y : ℕ) → bit_and x y ≡ bit_and (x / 2) (y / 2) * 2 + min (x % 2) (y % 2)
and_lowest zero y = omega (arith, bit_and-bitwise 0 y, bit_and-bitwise 0 (y / 2))
and_lowest (suc x) y = omega (
  arith,
  bit_and-bitwise (suc x) y,
  bit_and-bitwise (suc x / 2) (y / 2),
  digits_more (λ b. 0) min x (suc x / 2) (suc x / 2) (y / 2) (omega arith) (omega arith),
)

or_none : (n x : ℕ) → x ≤ n → bit_or x 0 ≡ x
or_none n zero h = bit_or-bitwise 0 0
or_none zero (suc x) h = absurd (omega arith)
or_none (suc n) (suc x) h = omega (arith, or_lowest (suc x) 0, or_none n (suc x / 2) (omega arith))

and_none : (n x : ℕ) → x ≤ n → bit_and x 0 ≡ 0
and_none n zero h = bit_and-bitwise 0 0
and_none zero (suc x) h = absurd (omega arith)
and_none (suc n) (suc x) h =
    omega (arith, and_lowest (suc x) 0, and_none n (suc x / 2) (omega arith))

doubled : (q k : ℕ) → q * 2 ^ suc k ≡ q * 2 ^ k * 2
doubled q k = ap (λ (t : ℕ). q * t) (pow-suc 2 k) ∙ (grind arith)

times_one : (q : ℕ) → q * 2 ^ 0 ≡ q
times_one q = omega arith

halved : (q k r : ℕ) → (q * 2 ^ suc k + r) / 2 ≡ q * 2 ^ k + r / 2
halved q k r = omega (arith, doubled q k)

-- A field above the lowest k bits, and one in them.
pub bit_or_field : (k q r : ℕ) → r < 2 ^ k → bit_or (q * 2 ^ k) r ≡ q * 2 ^ k + r
bit_or_field zero q zero h = or_none (q * 2 ^ 0) (q * 2 ^ 0) (omega arith) ∙ (omega arith)
bit_or_field zero q (suc r) h = absurd (omega arith)
bit_or_field (suc k) q r h = omega (
  arith,
  doubled q k,
  or_lowest (q * 2 ^ suc k) r,
  ap (λ t. bit_or t (r / 2)) (halved q k 0),
  ap (λ t. bit_or t (r / 2)) (half q k),
  bit_or_field k q (r / 2) (omega (arith, pow-suc 2 k)),
)
  where
    half : (q k : ℕ) → q * 2 ^ suc k / 2 ≡ q * 2 ^ k
    half q k = omega (arith, doubled q k)

-- The lowest k bits.
pub bit_and_low : (k q r : ℕ) → r < 2 ^ k → bit_and (q * 2 ^ k + r) (2 ^ k - 1) ≡ r
bit_and_low zero q r h = and_none (q * 2 ^ 0 + r) (q * 2 ^ 0 + r) (omega arith) ∙ (omega arith)
bit_and_low (suc k) q r h = omega (
  arith,
  doubled q k,
  pow-suc 2 k,
  one-le-pow k 2,
  and_lowest (q * 2 ^ suc k + r) (2 ^ suc k - 1),
  ap₂ bit_and (halved q k r) (low_half k),
  bit_and_low k q (r / 2) (omega (arith, pow-suc 2 k)),
)
  where
    low_half : (k : ℕ) → (2 ^ suc k - 1) / 2 ≡ 2 ^ k - 1
    low_half k = omega (arith, pow-suc 2 k, one-le-pow k 2)
