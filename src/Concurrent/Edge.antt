-- ===== src/Concurrent/Edge.antt =====
-- The rounding of aligned requests, and builds that define `MAP_HUGETLB`.
use rocksdb_pmdk.Base.{
  ℕ, ◌+◌, ◌-◌, ◌*◌, ◌/◌, ◌%◌, ◌<◌, ◌≤◌, ◌^◌, ◌≡◌, refl, ap, ◌∙◌, true, false, ltb, leb, ◌==◌,
  Returns, arith,
}
use Prim.Native.Nat.{bit_or}
use rocksdb_pmdk.Base.Bits.{bit_or_above, bit_or-lt, bit_or-ge_right}
use rocksdb_pmdk.Base.Words.{sub64}
use rocksdb_pmdk.Concurrent.Blocks.{BlockArena, allocate, rounding_holds}

bit_or_seven : (x : ℕ) → bit_or x 7 ≡ x / 8 * 8 + 7
bit_or_seven x =
    let parts : x ≡ x / 8 * 2 ^ 3 + x % 8 = omega arith in
    ap (λ (t : ℕ). bit_or t 7) parts
    ∙ omega (
      arith,
      bit_or_above 3 (x / 8) (x % 8) 7 (omega arith) (omega arith),
      bit_or-lt 3 (x % 8) 7 (omega arith) (omega arith),
      bit_or-ge_right 3 (x % 8) 7 (omega arith),
    )

-- The assertion on the rounded size holds for every size up to 2 ^ 64 - 16.
pub rounding_holds_lem : (bytes : ℕ) → bytes ≤ 2 ^ 64 - 16 → rounding_holds bytes ≡ true
unfolding rounding_holds
rounding_holds_lem bytes small = ground (arith, bit_or_seven (sub64 bytes 1))

-- In a build with `MAP_HUGETLB`, where the size of a huge page is 0 as initialized, a request of at
-- most a quarter of a block that does not fit into what is left returns: the address is that of the
-- null pointer less the bytes, no block is taken, and the arena takes itself to have 2 ^ 64 less the
-- bytes left.
pub allocate_hugetlb :
    (huge_page : ℕ → ℕ) (block : ℕ) (a : BlockArena) (bytes : ℕ)
    → a.hugetlb_size ≡ 0
    → 0 < bytes
    → bytes ≤ a.k_block_size / 4
    → a.alloc_bytes_remaining < bytes
    → bytes < 2 ^ 64
    → Returns (allocate true huge_page block a bytes) λ r.
      (r.0 ≡ 2 ^ 64 - bytes)
      × (r.1.alloc_bytes_remaining ≡ 2 ^ 64 - bytes)
      × (r.1.blocks ≡ a.blocks)
unfolding allocate
allocate_hugetlb huge_page block a bytes none_set pos fits full small =
    let e₁ : ltb 0 bytes ≡ true = ground arith in
    let e₂ : leb bytes a.alloc_bytes_remaining ≡ false = ground arith in
    let e₃ : ltb (a.k_block_size / 4) bytes ≡ false = ground arith in
    let e₄ : (a.hugetlb_size == 0) ≡ true = ground arith in
    rw (e₁, e₂, e₃, e₄) (_, refl, (omega arith, omega arith, refl))
