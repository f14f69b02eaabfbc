-- ===== src/Pstl/TableSize.antt =====
-- `tableSizeFor` rounds up to a power of two.
use Prim.Native.Nat.{bit_or}
use native.Mathlib.Decide.{dec_lt}
use native.Mathlib.Nat.{
  pow-suc, one-le-pow, pow-le-pow_right, mul-le-mul_right, le-div_iff_mul-le, div-lt_iff_lt-mul,
  div-add-mod', mod-lt, div-eq_of_lt, div-le_self,
}
use rocksdb_pmdk.Base.{
  ℕ, zero, suc, ◌+◌, ◌-◌, ◌*◌, ◌/◌, ◌%◌, ◌<◌, ◌≤◌, ◌^◌, ◌≡◌, refl, ap, ◌∙◌, false, leb,
  leb-eq_false_of_lt, subst, arith,
}
use rocksdb_pmdk.Base.Bits.{bit_or-lt, bit_or-ge_right, bit_or_above, bit_or-zero}
use rocksdb_pmdk.Pstl.{smear, table_size_for}

two_pow_add : (a b : ℕ) → 2 ^ (a + b) ≡ 2 ^ a * 2 ^ b
two_pow_add a zero = let e : a + 0 ≡ a = omega arith in rw e (omega arith)
two_pow_add a (suc b) =
    let e : a + suc b ≡ suc (a + b) = omega arith in
    rw e
      (omega (arith, pow-suc 2 (a + b), two_pow_add a b, ap (λ (t : ℕ). 2 ^ a * t) (pow-suc 2 b)))

-- A number of `k` digits of which the first `s` are ones.
abbrev HasOnes : ℕ → ℕ → ℕ → Type 0
HasOnes s k n = (n < 2 ^ k) × (2 ^ k ≤ n + 2 ^ (k - s))

-- With fewer than `k` ones the digits above the `m` lowest are all ones.
quotient_ones : (p m n : ℕ) → 0 < m → n < p * m → p * m ≤ n + m → p ≡ n / m + 1
quotient_ones p m n pos small large =
    let q = n / m in
    let upper : q < p = (div-lt_iff_lt-mul pos).1 small in
    elim (dec_lt (q + 1) p) [
      | yes gap ↦ absurd (
          omega (
            arith,
            mul-le-mul_right {m = q + 2} {n = p} m (omega arith),
            div-add-mod' n m,
            mod-lt n pos,
          ))
      | no none_left ↦ omega arith
    ]

smear_round :
    (s m k n : ℕ)
    → k ≡ s + m
    → HasOnes s k n
    → (smear s n < 2 ^ k) × (2 ^ k ≤ smear s n + 2 ^ (m - s))
unfolding smear
smear_round s m k n e (small, large) =
    let b = n / 2 ^ s in
    let q = n / 2 ^ m in
    let r = n % 2 ^ m in
    let c = 2 ^ m - 2 ^ (m - s) in
    let p_pos = one-le-pow s 2 (omega arith) in
    let m_pos = one-le-pow m 2 (omega arith) in
    let split : 2 ^ k ≡ 2 ^ s * 2 ^ m = rw e (two_pow_add s m) in
    let rest : 2 ^ (k - s) ≡ 2 ^ m = ap (λ (t : ℕ). 2 ^ t) (omega arith) in
    let ones : 2 ^ s ≡ q + 1 = quotient_ones (2 ^ s) (2 ^ m) n m_pos (omega arith) (omega arith) in
    let n_parts : q * 2 ^ m + r ≡ n = div-add-mod' n (2 ^ m) in
    let b_small : b < 2 ^ m = (div-lt_iff_lt-mul p_pos).1 (omega arith) in
    let halves : 2 ^ m ≤ 2 ^ s * 2 ^ (m - s) = omega (
      arith,
      pow-le-pow_right {n = 2} (omega arith) {i = m} {j = s + (m - s)} (omega arith),
      two_pow_add s (m - s),
    ) in
    let shrinks : 2 ^ (m - s) ≤ 2 ^ m =
      pow-le-pow_right {n = 2} (omega arith) {i = m - s} {j = m} (omega arith) in
    let cut : 2 ^ m ≡ c + 2 ^ (m - s) = omega arith in
    let b_large : c ≤ b =
      (le-div_iff_mul-le p_pos).1 (omega (arith, ap (λ (t : ℕ). t * 2 ^ s) cut)) in
    let above = bit_or_above m q r b (mod-lt n m_pos) b_small in
    let whole : bit_or n b ≡ q * 2 ^ m + bit_or r b =
      subst (λ (t : ℕ). bit_or t b ≡ q * 2 ^ m + bit_or r b) n_parts above in
    let product : 2 ^ s * 2 ^ m ≡ q * 2 ^ m + 2 ^ m =
      ap (λ (t : ℕ). t * 2 ^ m) ones ∙ omega arith in
    (
      bit_or-lt k n b small (omega (arith, div-le_self n (2 ^ s))),
      omega (arith, bit_or-ge_right m r b b_small),
    )

-- A round doubles the number of leading ones.
smear-HasOnes : (s k n : ℕ) → 0 < s → HasOnes s k n → HasOnes (s + s) k (smear s n)
smear-HasOnes s k n pos h = elim (dec_lt k s) [
  | yes all ↦
      let none_left : k - s ≡ 0 = omega arith in
      let still : k - (s + s) ≡ 0 = omega arith in
      let gone : n / 2 ^ s ≡ 0 = div-eq_of_lt (
        omega (arith, h.0, pow-le-pow_right {n = 2} (omega arith) {i = k} {j = s} (omega arith))) in
      let same : smear s n ≡ n = unfold smear in rw gone (bit_or-zero k n h.0) in
      rw (same, still) (h.0, rw none_left at h.1)
  | no some ↦
      let e : k - s - s ≡ k - (s + s) = omega arith in
      let round = smear_round s (k - s) k n (omega arith) h in (round.0, rw e at round.1)
]

-- The five rounds fill all digits below the first one.
smear_all :
    (k n : ℕ)
    → k ≤ 32
    → HasOnes 1 k n
    → smear 16 (smear 8 (smear 4 (smear 2 (smear 1 n)))) + 1 ≡ 2 ^ k
smear_all k n few h =
    let h₂ = smear-HasOnes 1 k n (omega arith) h in
    let h₄ = smear-HasOnes 2 k _ (omega arith) h₂ in
    let h₈ = smear-HasOnes 4 k _ (omega arith) h₄ in
    let h₁₆ = smear-HasOnes 8 k _ (omega arith) h₈ in
    let (small, large) = smear-HasOnes 16 k _ (omega arith) h₁₆ in
    let e : k - 32 ≡ 0 = omega arith in omega (arith, rw e at large)

-- A positive number has a first digit.
first_digit : (i n : ℕ) → n < 2 ^ i → 0 < n → (k : ℕ) × (k < i) × (2 ^ k ≤ n) × (n < 2 ^ suc k)
first_digit zero n small pos = absurd (omega arith)
first_digit (suc i) n small pos = elim (dec_lt n (2 ^ i)) [
  | yes lower ↦ let (k, lt, le, below) = first_digit i n lower pos in (k, omega arith, le, below)
  | no reached ↦ (i, omega arith, omega arith, small)
]

table_size_for-zero : (m : ℕ) → table_size_for m 0 ≡ 1
unfolding table_size_for smear
table_size_for-zero m = refl

table_size_for_one : (m : ℕ) → 0 < m → table_size_for m 1 ≡ 1
unfolding table_size_for smear
table_size_for_one m pos = let e : leb m 0 ≡ false = ground arith in rw e refl

table_size_for-suc :
    (m n : ℕ)
    → suc n < 2 ^ 32
    → let z = smear 16 (smear 8 (smear 4 (smear 2 (smear 1 n)))) in
      z < 2 ^ 31 → z < m → table_size_for m (suc n) ≡ z + 1
unfolding table_size_for
table_size_for-suc m n fits below small =
    let z = smear 16 (smear 8 (smear 4 (smear 2 (smear 1 n)))) in
    let e : (suc n + 2 ^ 32 - 1) % 2 ^ 32 ≡ n = omega arith in
    let positive : leb (2 ^ 31) z ≡ false = leb-eq_false_of_lt (2 ^ 31) z below in
    let under : leb m z ≡ false = leb-eq_false_of_lt m z small in rw (e, positive, under) refl

suc-sub : (k : ℕ) → suc k - 1 ≡ k
suc-sub k = omega arith

least_power : (k i n : ℕ) → 2 ^ k ≤ n → n < 2 ^ i → 2 ^ suc k ≤ 2 ^ i
least_power k i n le lt = elim (dec_lt k i) [
  | yes h ↦ pow-le-pow_right {n = 2} (omega arith) (omega arith)
  | no h ↦
      absurd (omega (arith, pow-le-pow_right {n = 2} (omega arith) {i = i} {j = k} (omega arith)))
]

-- For every capacity up to a maximum that is a power of two, `tableSizeFor` returns the least power
-- of two that is not below the capacity, and 1 for the capacity 0.
pub table_size_for-least :
    (j cap : ℕ)
    → j < 31
    → cap ≤ 2 ^ j
    → (k : ℕ) × (table_size_for (2 ^ j) cap ≡ 2 ^ k)
      × (cap ≤ 2 ^ k)
      × ((i : ℕ) → cap ≤ 2 ^ i → 2 ^ k ≤ 2 ^ i)
table_size_for-least j zero few fits =
    (0, table_size_for-zero (2 ^ j), omega arith, λ i h. one-le-pow i 2 (omega arith))
table_size_for-least j (suc zero) few fits = (
  0,
  table_size_for_one (2 ^ j) (one-le-pow j 2 (omega arith)),
  omega arith,
  λ i h. one-le-pow i 2 (omega arith),
)
table_size_for-least j (suc (suc n)) few fits =
    let (k, lt, le, below) = first_digit j (suc n) (omega arith) (omega arith) in
    let double = pow-suc 2 k in
    let z = smear 16 (smear 8 (smear 4 (smear 2 (smear 1 (suc n))))) in
    let ones : z + 1 ≡ 2 ^ suc k =
      smear_all (suc k) (suc n) (omega arith)
        (below, omega (arith, ap (λ (t : ℕ). 2 ^ t) (suc-sub k))) in
    let top : 2 ^ suc k ≤ 2 ^ j = pow-le-pow_right {n = 2} (omega arith) (omega arith) in
    let high : 2 ^ j ≤ 2 ^ 30 =
      pow-le-pow_right {n = 2} (omega arith) {i = j} {j = 30} (omega arith) in
    (
      suc k,
      table_size_for-suc (2 ^ j) (suc n) (omega arith) (omega arith) (omega arith) ∙ ones,
      omega arith,
      λ i h. least_power k i (suc n) le (omega arith),
    )
