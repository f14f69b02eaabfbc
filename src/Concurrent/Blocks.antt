-- ===== src/Concurrent/Blocks.antt =====
-- concurrentnvmarena.cc: `Allocate` and `AllocateAligned`, which serve requests from the class's own
-- block and take new blocks by `new`. The source names fields that it does not declare: `alloc_ptr_` is
-- read as `aligned_alloc_ptr_`, as in nvm_arena.cc, `AllocateFallback(bytes)` as the call for aligned
-- memory. `map_hugetlb` says whether the build defines `MAP_HUGETLB`; ROCKSDB_MALLOC_USABLE_SIZE is
-- taken as undefined. `AllocateFromHugePage` has no body.
use Prim.Native.Nat.{bit_or}
use rocksdb_pmdk.Base.{
  ℕ, ◌-◌, ◌*◌, ◌/◌, ◌%◌, Bool, true, false, ◌&&◌, Option, some, none, List, [], ◌∷◌, ◌++◌, min, ltb,
  leb, ◌==◌, if◌then◌else◌, Run, ok, assertion_failed, guard, ◌>>◌,
}
use rocksdb_pmdk.Base.Words.{add64, sub64}

-- `tracked` lists the calls of the tracker, if there is one.
pub record BlockArena : Type 0 where
  pub k_block_size : ℕ
  pub hugetlb_size : ℕ
  pub irregular_block_num : ℕ
  pub unaligned_alloc_ptr : ℕ
  pub aligned_alloc_ptr : ℕ
  pub alloc_bytes_remaining : ℕ
  pub blocks : List ℕ
  pub blocks_memory : ℕ
  pub tracked : Option (List ℕ)

-- `kMaxShardBlockSize`
abbrev pub k_max_shard_block_size : ℕ
k_max_shard_block_size = 128 * 1024

-- What the constructor makes of the size of a block: the size of the shards' blocks.
unfoldable pub shard_block_size_of : ℕ → ℕ
shard_block_size_of block_size = min k_max_shard_block_size (block_size / 8)

unfoldable pub block_size : BlockArena → ℕ
block_size a = a.k_block_size

-- `block` is what `new char[]` returns.
unfoldable pub allocate_new_block : (block : ℕ) → BlockArena → ℕ → ℕ × BlockArena
allocate_new_block block a block_bytes = (
  block,
  record a {
    blocks = a.blocks ++ block ∷ [];
    blocks_memory = add64 a.blocks_memory block_bytes;
    tracked = elim a.tracked [ none ↦ none | some sizes ↦ some (sizes ++ block_bytes ∷ []) ];
  },
)

-- The assertion on `rounded_up`.
unfoldable pub rounding_holds : ℕ → Bool
rounding_holds bytes =
    let rounded_up = add64 (bit_or (sub64 bytes 1) 7) 1 in
    leb bytes rounded_up && ltb rounded_up (add64 bytes 8) && rounded_up % 8 == 0

module _ (map_hugetlb : Bool) (huge_page : ℕ → ℕ) (block : ℕ) where
  -- The size and the head of the block that takes the place of the current one.
  unfoldable pub next_block : BlockArena → ℕ × ℕ × BlockArena
  unfolding allocate_new_block
  next_block a =
      let fresh = allocate_new_block block a a.k_block_size in
      if map_hugetlb
      then if a.hugetlb_size == 0 then (0, 0, a) else (a.hugetlb_size, huge_page a.hugetlb_size, a)
      else (a.k_block_size, fresh.0, fresh.1)

  unfoldable pub allocate_fallback : BlockArena → ℕ → (aligned : Bool) → ℕ × BlockArena
  unfolding next_block allocate_new_block
  allocate_fallback a bytes aligned =
      let irregular =
        allocate_new_block block (record a { irregular_block_num = add64 a.irregular_block_num 1 })
          bytes in
      let (size, block_head, a') = next_block a in
      let left = sub64 size bytes in
      let end = add64 block_head size in
      let from_left : ℕ × BlockArena = (
        block_head,
        record a' {
          alloc_bytes_remaining = left;
          aligned_alloc_ptr = add64 block_head bytes;
          unaligned_alloc_ptr = end;
        },
      ) in
      let from_right : ℕ × BlockArena = (
        sub64 end bytes,
        record a' {
          alloc_bytes_remaining = left;
          aligned_alloc_ptr = block_head;
          unaligned_alloc_ptr = sub64 end bytes;
        },
      ) in
      if ltb (a.k_block_size / 4) bytes
      then irregular
      else if aligned
      then from_left
      else from_right

  unfoldable pub allocate : BlockArena → ℕ → Run (ℕ × BlockArena)
  unfolding allocate_fallback
  allocate a bytes = do
    guard (ltb 0 bytes) assertion_failed
    let top = sub64 a.unaligned_alloc_ptr bytes
    let taken : BlockArena = record a {
      unaligned_alloc_ptr = top;
      alloc_bytes_remaining = a.alloc_bytes_remaining - bytes;
    }
    ok (if leb bytes a.alloc_bytes_remaining then (top, taken) else allocate_fallback a bytes false)

  -- The piece of `AllocateAligned`, before its last assertion.
  unfoldable pub take_aligned : BlockArena → ℕ → ℕ × BlockArena
  unfolding allocate_fallback
  take_aligned a bytes =
      let current_mod = a.aligned_alloc_ptr % 8 in
      let slop = if current_mod == 0 then 0 else 8 - current_mod in
      let needed = add64 bytes slop in
      let taken : BlockArena = record a {
        aligned_alloc_ptr = add64 a.aligned_alloc_ptr needed;
        alloc_bytes_remaining = a.alloc_bytes_remaining - needed;
      } in
      if leb needed a.alloc_bytes_remaining
      then (add64 a.aligned_alloc_ptr slop, taken)
      else allocate_fallback a bytes true

  unfoldable pub allocate_aligned : BlockArena → ℕ → Run (ℕ × BlockArena)
  unfolding take_aligned rounding_holds
  allocate_aligned a bytes = do
    guard (rounding_holds bytes) assertion_failed
    let r = take_aligned a bytes
    guard (r.0 % 8 == 0) assertion_failed
    ok r

-- `Repick`: `index` is that of the shard that `AccessElementAndIndex` returns, `size` the number of
-- shards. The result is the index and the new `tls_cpuid`.
unfoldable pub repick : (thread_local : Bool) → (size index tls_cpuid : ℕ) → ℕ × ℕ
repick thread_local size index tls_cpuid =
    (index, if thread_local then bit_or index size else tls_cpuid)
