-- ===== src/Arena.antt =====
-- nvm_arena.h and nvm_arena.cc: an arena in one mapped file. Aligned memory is taken from the left
-- end of the block, other memory from its right end. `DBG_PRINT` is left out, and so is the counter
-- in the name of the mapped file. The code behind `exit(-1)` in `AllocateFallback` cannot be
-- reached; it is `behind_exit` here.
pub mod Serve
pub mod Series
use rocksdb_pmdk.Base.{
  ℕ, ◌+◌, ◌-◌, ◌*◌, ◌/◌, ◌%◌, ◌<◌, ◌≤◌, ◌^◌, ◌≡◌, Bool, true, false, Option, none, some, List, [],
  ◌∷◌, ◌++◌, ltb, leb, ◌==◌, if◌then◌else◌, Run, ok, fault, assertion_failed, exited, of_option,
  guard, ◌>>=◌, ◌>>◌,
}
use rocksdb_pmdk.Base.Words.{add64, sub64}

-- `alignof(max_align_t)` on the 64-bit machines that libpmem runs on.
abbrev pub align_unit : ℕ
align_unit = 16

abbrev pub k_min_block_size : ℕ
k_min_block_size = 4096

-- The product is one of `unsigned`.
abbrev pub k_max_block_size : ℕ
k_max_block_size = 2 * 2 ^ 30 % 2 ^ 32

pub record NvmArena : Type 0 where
  pub block_addr : ℕ
  pub block_sz : ℕ
  pub k_block_size : ℕ
  pub unaligned_alloc_ptr : ℕ
  pub aligned_alloc_ptr : ℕ
  pub alloc_bytes_remaining : ℕ
  pub blocks : List ℕ
  pub blocks_memory : ℕ
  pub irregular_block_num : ℕ

-- The constructor. `optimize_block_size` is rocksdb's `OptimizeBlockSize`; `mapped` is the address
-- that `pmem_map_file` returns for the block, if it does.
unfoldable pub new_arena : (ℕ → ℕ) → (mapped : ℕ → Option ℕ) → ℕ → Run NvmArena
new_arena optimize_block_size mapped block_size = do
  let block_sz = optimize_block_size (block_size * 2 ^ 3 % 2 ^ 64)
  block_addr ← of_option exited (mapped block_sz)
  ok (record {
    block_addr = block_addr;
    block_sz = block_sz;
    k_block_size = block_sz;
    unaligned_alloc_ptr = add64 block_addr block_sz;
    aligned_alloc_ptr = block_addr;
    alloc_bytes_remaining = block_sz;
    blocks = [];
    blocks_memory = block_sz;
    irregular_block_num = 0;
  })

-- `AllocateFallback` ends the process.
unfoldable pub allocate_fallback : NvmArena → ℕ → Bool → Run (ℕ × NvmArena)
allocate_fallback a bytes aligned = fault exited

-- `AllocateNewBlock`: `block` is what `new char[]` returns.
unfoldable pub allocate_new_block : NvmArena → (block : ℕ) → ℕ → ℕ × NvmArena
allocate_new_block a block block_bytes = (
  block,
  record a { blocks = a.blocks ++ block ∷ []; blocks_memory = add64 a.blocks_memory block_bytes },
)

-- What stands behind `exit(-1)` in `AllocateFallback`, which would take a new block.
unfoldable pub behind_exit : NvmArena → (block : ℕ) → ℕ → Bool → ℕ × NvmArena
unfolding allocate_new_block
behind_exit a block bytes aligned =
    let size = a.k_block_size in
    let (irregular, grown) = allocate_new_block a block bytes in
    let (block_head, fresh) = allocate_new_block a block size in
    let rest : NvmArena = record fresh { alloc_bytes_remaining = sub64 size bytes } in
    let top = sub64 (add64 block_head size) bytes in
    let from_left : NvmArena = record rest {
      aligned_alloc_ptr = add64 block_head bytes;
      unaligned_alloc_ptr = add64 block_head size;
    } in
    let from_right : NvmArena = record rest {
      aligned_alloc_ptr = block_head;
      unaligned_alloc_ptr = top;
    } in
    if ltb (size / 4) bytes
    then (irregular, record grown { irregular_block_num = add64 a.irregular_block_num 1 })
    else if aligned
    then (block_head, from_left)
    else (top, from_right)

unfoldable pub allocate : NvmArena → ℕ → Run (ℕ × NvmArena)
unfolding allocate_fallback
allocate a bytes = do
  guard (ltb 0 bytes) assertion_failed
  let top = sub64 a.unaligned_alloc_ptr bytes
  let taken : NvmArena = record a {
    unaligned_alloc_ptr = top;
    alloc_bytes_remaining = a.alloc_bytes_remaining - bytes;
  }
  if leb bytes a.alloc_bytes_remaining then ok (top, taken) else allocate_fallback a bytes false

unfoldable pub allocate_aligned : NvmArena → ℕ → Run (ℕ × NvmArena)
unfolding allocate_fallback
allocate_aligned a bytes = do
  let current_mod = a.aligned_alloc_ptr % align_unit
  let slop = if current_mod == 0 then 0 else align_unit - current_mod
  let needed = add64 bytes slop
  let taken : NvmArena = record a {
    aligned_alloc_ptr = add64 a.aligned_alloc_ptr needed;
    alloc_bytes_remaining = a.alloc_bytes_remaining - needed;
  }
  r ←
      (if leb needed a.alloc_bytes_remaining
        then ok (add64 a.aligned_alloc_ptr slop, taken)
        else allocate_fallback a bytes true)
  guard (r.0 % align_unit == 0) assertion_failed
  ok r

unfoldable pub approximate_memory_usage : NvmArena → ℕ
approximate_memory_usage a = sub64 a.blocks_memory a.alloc_bytes_remaining

unfoldable pub memory_allocated_bytes : NvmArena → ℕ
memory_allocated_bytes a = a.blocks_memory

unfoldable pub allocated_and_unused : NvmArena → ℕ
allocated_and_unused a = a.alloc_bytes_remaining

unfoldable pub block_size : NvmArena → ℕ
block_size a = a.block_sz
