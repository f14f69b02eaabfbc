-- ===== src/Arena/Serve.antt =====
-- One request to an arena.
use rocksdb_pmdk.Base.{
  ℕ, ◌+◌, ◌-◌, ◌*◌, ◌%◌, ◌<◌, ◌≤◌, ◌^◌, ◌≡◌, refl, ◌⊎◌, true, Option, some, ltb, leb, ◌==◌,
  if◌then◌else◌, ok, arith, Returns,
}
use rocksdb_pmdk.Base.Words.{add64}
use rocksdb_pmdk.Arena.{NvmArena, new_arena, allocate, allocate_aligned, align_unit}

-- Between the two pointers lies what remains of the block.
pub record IsArena (a : NvmArena) : Type 0 where
  pub left : a.block_addr ≤ a.aligned_alloc_ptr
  pub middle : a.aligned_alloc_ptr + a.alloc_bytes_remaining ≡ a.unaligned_alloc_ptr
  pub right : a.unaligned_alloc_ptr ≤ a.block_addr + a.block_sz
  pub small : a.block_addr + a.block_sz < 2 ^ 64
  pub counted : a.blocks_memory ≡ a.block_sz

-- Where the file is mapped at an address from which the block ends below 2 ^ 64, the constructor
-- returns a well-formed arena.
pub new_arena-IsArena :
    (optimize_block_size : ℕ → ℕ) (mapped : ℕ → Option ℕ) (size addr : ℕ)
    → let n = optimize_block_size (size * 2 ^ 3 % 2 ^ 64) in
      mapped n ≡ some addr
      → addr + n < 2 ^ 64
      → Returns (new_arena optimize_block_size mapped size) IsArena
unfolding new_arena
new_arena-IsArena optimize_block_size mapped size addr e small = rw e (
  _,
  refl,
  record {
    left = omega arith;
    middle = omega arith;
    right = omega arith;
    small = small;
    counted = refl;
  },
)

-- What a request that returned did: the memory lay between the pointers, they have closed in past
-- it, and nothing else of the block has changed.
pub record Served (a : NvmArena) (slack bytes : ℕ) (r : ℕ × NvmArena) : Type 0 where
  pub is_arena : IsArena r.1
  pub same_addr : r.1.block_addr ≡ a.block_addr
  pub same_size : r.1.block_sz ≡ a.block_sz
  pub inside : (a.aligned_alloc_ptr ≤ r.0) × (r.0 + bytes ≤ a.unaligned_alloc_ptr)
  pub closed :
      (a.aligned_alloc_ptr ≤ r.1.aligned_alloc_ptr)
      × (r.1.unaligned_alloc_ptr ≤ a.unaligned_alloc_ptr)
  pub past : (r.0 + bytes ≤ r.1.aligned_alloc_ptr) ⊎ (r.1.unaligned_alloc_ptr ≤ r.0)
  pub taken : r.1.alloc_bytes_remaining + bytes ≤ a.alloc_bytes_remaining
  pub spent : a.alloc_bytes_remaining ≤ r.1.alloc_bytes_remaining + bytes + slack

pub allocate-Served :
    (a : NvmArena) (bytes : ℕ) (r : ℕ × NvmArena)
    → IsArena a
    → allocate a bytes ≡ ok r
    → Served a 0 bytes r
unfolding allocate
allocate-Served a bytes r v h = ground arith

pub allocate_aligned-Served :
    (a : NvmArena) (bytes : ℕ) (r : ℕ × NvmArena)
    → IsArena a
    → bytes + align_unit ≤ a.alloc_bytes_remaining
    → allocate_aligned a bytes ≡ ok r
    → Served a align_unit bytes r × (r.0 % align_unit ≡ 0)
unfolding allocate_aligned
allocate_aligned-Served a bytes r v small h = ground arith

pub allocate-returns :
    (a : NvmArena) (bytes : ℕ)
    → 0 < bytes
    → bytes ≤ a.alloc_bytes_remaining
    → (r : ℕ × NvmArena) × (allocate a bytes ≡ ok r)
unfolding allocate
allocate-returns a bytes pos fits =
    let e : ltb 0 bytes ≡ true = ground arith in
    let e' : leb bytes a.alloc_bytes_remaining ≡ true = ground arith in rw (e, e') (_, refl)

pub allocate_aligned-returns :
    (a : NvmArena) (bytes : ℕ)
    → IsArena a
    → bytes + align_unit ≤ a.alloc_bytes_remaining
    → (r : ℕ × NvmArena) × (allocate_aligned a bytes ≡ ok r)
unfolding allocate_aligned
allocate_aligned-returns a bytes v fits =
    let left = v.left in
    let middle = v.middle in
    let right = v.right in
    let small = v.small in
    let current_mod = a.aligned_alloc_ptr % align_unit in
    let slop = if current_mod == 0 then 0 else align_unit - current_mod in
    let near : slop ≤ align_unit = ground arith in
    let up : (a.aligned_alloc_ptr + slop) % align_unit ≡ 0 = ground arith in
    let e : leb (add64 bytes slop) a.alloc_bytes_remaining ≡ true = ground arith in
    let e' : add64 a.aligned_alloc_ptr slop ≡ a.aligned_alloc_ptr + slop = omega arith in
    let e'' : (add64 a.aligned_alloc_ptr slop % align_unit == 0) ≡ true = rw (e', up) refl in
    rw (e, e'') (_, refl)
