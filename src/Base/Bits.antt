-- ===== src/Base/Bits.antt =====
-- `|` and `^` of binary numbers at every width, from the digit recursion of the native operations.
use Prim.Native.Nat.{
  ℕ, zero, suc, ◌+◌, ◌*◌, ◌/◌, ◌%◌, ◌^◌, ◌≤◌, ◌<◌, max, digits, differ, bit_or, bit_xor,
  bit_or-bitwise, bit_xor-bitwise,
}
use mathlib.Core.Path.{◌≡◌, refl, ap}
use native.Mathlib.Nat.{pow-suc}
use native.Mathlib.Omega.{arith}

-- Any count of digits that is large enough gives the same number.
digits_enough :
    (z : ℕ → ℕ) (f : ℕ → ℕ → ℕ) (n m a b : ℕ) → a ≤ n → a ≤ m → digits z f n a b ≡ digits z f m a b
digits_enough z f zero zero zero b p q = refl
digits_enough z f zero (suc m) zero b p q = refl
digits_enough z f (suc n) zero zero b p q = refl
digits_enough z f (suc n) (suc m) zero b p q = refl
digits_enough z f (suc n) (suc m) (suc a) b p q =
    omega (arith, digits_enough z f n m (suc a / 2) (b / 2) (omega arith) (omega arith))
digits_enough z f n m a b p q = absurd (omega arith)

pub bit_or_step : (a b : ℕ) → bit_or a b ≡ bit_or (a / 2) (b / 2) * 2 + max (a % 2) (b % 2)
bit_or_step zero b = omega (arith, bit_or-bitwise 0 b, bit_or-bitwise 0 (b / 2))
bit_or_step (suc a) b = omega (
  arith,
  bit_or-bitwise (suc a) b,
  bit_or-bitwise (suc a / 2) (b / 2),
  digits_enough (λ c. c) max a (suc a / 2) (suc a / 2) (b / 2) (omega arith) (omega arith),
)

differ-eq : (x y : ℕ) → x < 2 → y < 2 → differ x y ≡ (x + y) % 2
differ-eq zero zero p q = refl
differ-eq zero (suc zero) p q = refl
differ-eq (suc zero) zero p q = refl
differ-eq (suc zero) (suc zero) p q = refl
differ-eq x y p q = absurd (omega arith)

pub bit_xor_step : (a b : ℕ) → bit_xor a b ≡ bit_xor (a / 2) (b / 2) * 2 + (a % 2 + b % 2) % 2
bit_xor_step zero b = omega (arith, bit_xor-bitwise 0 b, bit_xor-bitwise 0 (b / 2))
bit_xor_step (suc a) b = omega (
  arith,
  bit_xor-bitwise (suc a) b,
  bit_xor-bitwise (suc a / 2) (b / 2),
  digits_enough (λ c. c) differ a (suc a / 2) (suc a / 2) (b / 2) (omega arith) (omega arith),
  differ-eq (suc a % 2) (b % 2),
)

zero-bit_or : (b : ℕ) → bit_or 0 b ≡ b
zero-bit_or b = bit_or-bitwise 0 b

zero-bit_xor : (b : ℕ) → bit_xor 0 b ≡ b
zero-bit_xor b = bit_xor-bitwise 0 b

-- Numbers of `m` digits stay numbers of `m` digits.
pub bit_or-lt : (m a b : ℕ) → a < 2 ^ m → b < 2 ^ m → bit_or a b < 2 ^ m
bit_or-lt zero a b p q = ground (arith, zero-bit_or b)
bit_or-lt (suc m) a b p q = ground (
  arith,
  pow-suc 2 m,
  bit_or_step a b,
  bit_or-lt m (a / 2) (b / 2) (omega (arith, pow-suc 2 m)) (omega (arith, pow-suc 2 m)),
)

pub bit_xor-lt : (m a b : ℕ) → a < 2 ^ m → b < 2 ^ m → bit_xor a b < 2 ^ m
bit_xor-lt zero a b p q = ground (arith, zero-bit_xor b)
bit_xor-lt (suc m) a b p q = ground (
  arith,
  pow-suc 2 m,
  bit_xor_step a b,
  bit_xor-lt m (a / 2) (b / 2) (omega (arith, pow-suc 2 m)) (omega (arith, pow-suc 2 m)),
)

pub bit_or-ge_right : (m a b : ℕ) → b < 2 ^ m → b ≤ bit_or a b
bit_or-ge_right zero a b q = omega arith
bit_or-ge_right (suc m) a b q =
    omega (arith, bit_or_step a b, bit_or-ge_right m (a / 2) (b / 2) (omega (arith, pow-suc 2 m)))

pub bit_or-zero : (m a : ℕ) → a < 2 ^ m → bit_or a 0 ≡ a
bit_or-zero zero a p = ground (arith, zero-bit_or 0)
bit_or-zero (suc m) a p =
    omega (arith, bit_or_step a 0, bit_or-zero m (a / 2) (omega (arith, pow-suc 2 m)))

double_mul : (q m : ℕ) → q * 2 ^ suc m ≡ 2 * (q * 2 ^ m)
double_mul q m = omega (arith, ap (λ (t : ℕ). q * t) (pow-suc 2 m))

lt-two_pow : (n : ℕ) → n < 2 ^ n
lt-two_pow zero = omega arith
lt-two_pow (suc n) = omega (arith, pow-suc 2 n, lt-two_pow n)

-- The digits above the `m` lowest stay where the other number has none.
pub bit_or_above :
    (m q r b : ℕ) → r < 2 ^ m → b < 2 ^ m → bit_or (q * 2 ^ m + r) b ≡ q * 2 ^ m + bit_or r b
bit_or_above zero q r b p s = ground (arith, bit_or-zero q q (lt-two_pow q), zero-bit_or b)
bit_or_above (suc m) q r b p s =
    let half : (q * 2 ^ suc m + r) / 2 ≡ q * 2 ^ m + r / 2 = omega (arith, double_mul q m) in
    omega (
      arith,
      pow-suc 2 m,
      double_mul q m,
      bit_or_step (q * 2 ^ suc m + r) b,
      ap (λ (t : ℕ). bit_or t (b / 2)) half,
      bit_or_step r b,
      bit_or_above m q (r / 2) (b / 2) (omega (arith, pow-suc 2 m)) (omega (arith, pow-suc 2 m)),
    )

pub bit_xor-zero : (m a : ℕ) → a < 2 ^ m → bit_xor a 0 ≡ a
bit_xor-zero zero a p = ground (arith, zero-bit_xor 0)
bit_xor-zero (suc m) a p =
    omega (arith, bit_xor_step a 0, bit_xor-zero m (a / 2) (omega (arith, pow-suc 2 m)))

pub bit_xor_above :
    (m q r b : ℕ) → r < 2 ^ m → b < 2 ^ m → bit_xor (q * 2 ^ m + r) b ≡ q * 2 ^ m + bit_xor r b
bit_xor_above zero q r b p s = ground (arith, bit_xor-zero q q (lt-two_pow q), zero-bit_xor b)
bit_xor_above (suc m) q r b p s =
    let half : (q * 2 ^ suc m + r) / 2 ≡ q * 2 ^ m + r / 2 = omega (arith, double_mul q m) in
    omega (
      arith,
      pow-suc 2 m,
      double_mul q m,
      bit_xor_step (q * 2 ^ suc m + r) b,
      ap (λ (t : ℕ). bit_xor t (b / 2)) half,
      bit_xor_step r b,
      bit_xor_above m q (r / 2) (b / 2) (omega (arith, pow-suc 2 m)) (omega (arith, pow-suc 2 m)),
    )

-- The same number twice cancels.
pub bit_xor_twice : (m a b : ℕ) → a < 2 ^ m → b < 2 ^ m → bit_xor (bit_xor a b) b ≡ a
bit_xor_twice zero a b p q = ground (arith, zero-bit_xor b, zero-bit_xor 0)
bit_xor_twice (suc m) a b p q =
    let half : bit_xor a b / 2 ≡ bit_xor (a / 2) (b / 2) = omega (arith, bit_xor_step a b) in
    omega (
      arith,
      bit_xor_step a b,
      bit_xor_step (bit_xor a b) b,
      ap (λ (t : ℕ). bit_xor t (b / 2)) half,
      bit_xor_twice m (a / 2) (b / 2) (omega (arith, pow-suc 2 m)) (omega (arith, pow-suc 2 m)),
    )
