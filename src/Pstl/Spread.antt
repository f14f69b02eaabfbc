-- ===== src/Pstl/Spread.antt =====
-- The spreading of the hash code loses nothing.
use Prim.Native.Nat.{bit_xor}
use rocksdb_pmdk.Base.{ℕ, ◌+◌, ◌*◌, ◌/◌, ◌%◌, ◌<◌, ◌^◌, ◌≡◌, ◌↔◌, ◌∙◌, ap, sym, some, arith}
use rocksdb_pmdk.Base.Bits.{bit_xor-lt, bit_xor_above, bit_xor_twice}
use rocksdb_pmdk.Pstl.{Cobj, hash}

spread-eq :
    (h : ℕ)
    → h < 2 ^ 64
    → bit_xor h (h / 2 ^ 32) ≡ h / 2 ^ 32 * 2 ^ 32 + bit_xor (h % 2 ^ 32) (h / 2 ^ 32)
spread-eq h small =
    let parts : h ≡ h / 2 ^ 32 * 2 ^ 32 + h % 2 ^ 32 = omega arith in
    ap (λ (t : ℕ). bit_xor t (h / 2 ^ 32)) parts
    ∙ bit_xor_above 32 (h / 2 ^ 32) (h % 2 ^ 32) (h / 2 ^ 32) (omega arith) (omega arith)

spread_twice :
    (h : ℕ)
    → h < 2 ^ 64
    → let s = bit_xor h (h / 2 ^ 32) in (s < 2 ^ 64) × (bit_xor s (s / 2 ^ 32) ≡ h)
spread_twice h small =
    let hi = h / 2 ^ 32 in
    let lo = h % 2 ^ 32 in
    let s = bit_xor h hi in
    let e = spread-eq h small in
    let mixed : bit_xor lo hi < 2 ^ 32 = bit_xor-lt 32 lo hi (omega arith) (omega arith) in
    let bound : s < 2 ^ 64 = omega arith in
    let up : s / 2 ^ 32 ≡ hi = omega arith in
    let low : s % 2 ^ 32 ≡ bit_xor lo hi = omega arith in
    let back = bit_xor_twice 32 lo hi (omega arith) (omega arith) in
    (bound, spread-eq s bound ∙ rw (up, low, back) (omega arith))

-- Two objects with hash codes of 64 digits get the same hash exactly if their hash codes are equal.
pub hash-eq_iff :
    {K : Type 0} (keys : Cobj K) (a b : K)
    → keys.hash_code a < 2 ^ 64
    → keys.hash_code b < 2 ^ 64
    → (hash keys (some a) ≡ hash keys (some b)) ↔ (keys.hash_code a ≡ keys.hash_code b)
unfolding hash
hash-eq_iff keys a b small_a small_b = (
  λ e.
      sym (spread_twice (keys.hash_code a) small_a).1
      ∙ ap (λ (t : ℕ). bit_xor t (t / 2 ^ 32)) e
      ∙ (spread_twice (keys.hash_code b) small_b).1,
  λ e. ap (λ (t : ℕ). bit_xor t (t / 2 ^ 32)) e,
)
