-- ===== src/Concurrent.antt =====
-- concurrentnvmarena.h and concurrentnvmarena.cc: `AllocateImpl`, which serves small requests from a
-- shard of the core. rocksdb's `Arena` is a parameter. One call is modelled from its locks to its
-- return: what the locks decide, whether the arena's is free and which shard is taken, is given.
pub mod Shards
pub mod Blocks
pub mod Handouts
pub mod History
pub mod Edge
pub mod Usage
pub mod Service
pub mod Sharing
pub mod Calls
use rocksdb_pmdk.Base.{
  ℕ, ◌+◌, ◌/◌, ◌%◌, ◌<◌, ◌^◌, ◌≡◌, Bool, ◌&&◌, ◌||◌, List, [], ◌∷◌, get_elem?, set, ltb, leb, ◌==◌,
  if◌then◌else◌, Run, ok, assertion_failed, out_of_bounds, of_option, guard, ◌>>=◌, ◌>>◌,
}
use rocksdb_pmdk.Base.Words.{add64, sub64, mul64}

-- What is used of rocksdb's `Arena`: the memory that it returns ends below 2 ^ 64.
pub record Arena (A : Type 0) : Type 0 where
  pub allocate_aligned : ℕ → A → Run (ℕ × A)
  pub allocated_and_unused : A → ℕ
  pub memory_allocated_bytes : A → ℕ
  pub irregular_block_num : A → ℕ
  pub is_in_inline_block : A → Bool
  pub ends : (n p : ℕ) (a a' : A) → allocate_aligned n a ≡ ok (p, a') → p + n < 2 ^ 64

pub record Shard : Type 0 where
  pub free_begin : ℕ
  pub allocated_and_unused : ℕ

pub record ConcurrentNvmArena (A : Type 0) : Type 0 where
  pub shard_block_size : ℕ
  pub shards : List Shard
  pub arena : A
  pub arena_allocated_and_unused : ℕ
  pub memory_allocated_bytes : ℕ
  pub irregular_block_num : ℕ

unfoldable pub shard_allocated_and_unused : List Shard → ℕ
shard_allocated_and_unused [] = 0
shard_allocated_and_unused (s ∷ ss) = add64 s.allocated_and_unused (shard_allocated_and_unused ss)

-- The end of `AllocateImpl`: a multiple of eight bytes from the beginning, others from the end.
unfoldable pub take_from : Shard → (avail : ℕ) → ℕ → ℕ × Shard
take_from s avail bytes =
    let left = sub64 avail bytes in
    if bytes % 8 == 0
    then (
      s.free_begin,
      record { free_begin = add64 s.free_begin bytes; allocated_and_unused = left },
    )
    else (sub64 (add64 s.free_begin avail) bytes, record s { allocated_and_unused = left })

-- The size of a new block for a shard, where `exact` bytes are left in the arena.
unfoldable pub reload_size : (exact shard_block_size : ℕ) → ℕ
reload_size exact shard_block_size =
    if leb (shard_block_size / 2) exact && ltb exact (mul64 shard_block_size 2)
    then exact
    else shard_block_size

module _ {A : Type 0} (ops : Arena A) where
  unfoldable pub fixup : ConcurrentNvmArena A → ConcurrentNvmArena A
  fixup c = record c {
    arena_allocated_and_unused = ops.allocated_and_unused c.arena;
    memory_allocated_bytes = ops.memory_allocated_bytes c.arena;
    irregular_block_num = ops.irregular_block_num c.arena;
  }

  module _ (func : A → Run (ℕ × A)) (bytes : ℕ) where
    unfoldable pub from_arena : ConcurrentNvmArena A → Run (ℕ × ConcurrentNvmArena A)
    unfolding fixup
    from_arena c = func c.arena >>= λ r. ok (r.0, fixup (record c { arena = r.1 }))

    unfoldable pub finish :
        (pick : ℕ) → ConcurrentNvmArena A → Shard → ℕ → Run (ℕ × ConcurrentNvmArena A)
    unfolding take_from
    finish pick c s avail =
        let r = take_from s avail bytes in ok (r.0, record c { shards = set c.shards pick r.1 })

    unfoldable pub reload :
        (pick : ℕ) → ConcurrentNvmArena A → Shard → Run (ℕ × ConcurrentNvmArena A)
    unfolding from_arena fixup finish
    reload pick c s = do
      let exact = c.arena_allocated_and_unused
      guard (exact == ops.allocated_and_unused c.arena) assertion_failed
      let avail = reload_size exact c.shard_block_size
      let renewed = ops.allocate_aligned avail c.arena >>= λ r.
          finish pick (fixup (record c { arena = r.1 })) (record s { free_begin = r.0 }) avail
      if leb bytes exact && ops.is_in_inline_block c.arena then from_arena c else renewed

    -- `cpu` is `tls_cpuid`, `arena_free` the outcome of `arena_lock.try_lock()`, `pick` the number
    -- of the shard whose lock is taken.
    unfoldable pub allocate_impl :
        (force_arena : Bool)
        → (cpu : ℕ) → (arena_free : Bool) → (pick : ℕ) → ConcurrentNvmArena A
        → Run (ℕ × ConcurrentNvmArena A)
    unfolding from_arena reload finish
    allocate_impl force_arena cpu arena_free pick c = do
      first ← of_option out_of_bounds (get_elem? c.shards 0)
      let idle = cpu == 0 && first.allocated_and_unused == 0 && arena_free
      let in_shard = of_option out_of_bounds (get_elem? c.shards pick) >>= λ s.
          let avail = s.allocated_and_unused in
          if ltb avail bytes then reload pick c s else finish pick c s avail
      if ltb (c.shard_block_size / 4) bytes || force_arena || idle then from_arena c else in_shard
