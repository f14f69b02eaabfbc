-- ===== src/Tests/Histories.antt =====
-- Requests to a concurrent arena's own blocks.
use rocksdb_pmdk.Arena.Series.{unaligned, aligned}
use rocksdb_pmdk.Base.{ℕ, ◌-◌, ◌^◌, ◌≡◌, refl, true, none, [], ◌∷◌, inr, ok, arith, Returns}
use rocksdb_pmdk.Concurrent.Blocks.{BlockArena, allocate}
use rocksdb_pmdk.Concurrent.Edge.{allocate_hugetlb}
use rocksdb_pmdk.Concurrent.History.{System, IsSafe, serve, Step, call, here, later}
use rocksdb_pmdk.Concurrent.Service.{serve-IsSafe}

abbrev no_pages : ℕ → ℕ
no_pages n = 0

abbrev no_block : BlockArena
no_block = record {
  k_block_size = 4096;
  hugetlb_size = 0;
  irregular_block_num = 0;
  unaligned_alloc_ptr = 0;
  aligned_alloc_ptr = 0;
  alloc_bytes_remaining = 0;
  blocks = [];
  blocks_memory = 0;
  tracked = none;
}

-- Behind a request of 100 bytes, with a block at 8192.
abbrev one_block : BlockArena
one_block = record {
  k_block_size = 4096;
  hugetlb_size = 0;
  irregular_block_num = 0;
  unaligned_alloc_ptr = 12188;
  aligned_alloc_ptr = 8192;
  alloc_bytes_remaining = 3996;
  blocks = 8192 ∷ [];
  blocks_memory = 4096;
  tracked = none;
}

abbrev start : System
start = record { arena = no_block; issued = [] }

start-IsSafe : IsSafe start
start-IsSafe = record {
  arena_ok = record { meets = refl; small = omega arith };
  issued_apart = tt;
  free_apart = tt;
}

abbrev one_served : System
one_served = record { arena = one_block; issued = (12188, 100) ∷ [] }

serves : serve no_pages 8192 (unaligned 100) no_block ≡ ok (12188, one_block)
unfolding serve allocate
serves = refl

one-Step : Step no_pages start one_served
one-Step =
    call (unaligned 100) 8192 (12188, one_block) (omega arith)
      (record { ends = omega arith; unused = tt; outside = inr (omega arith) }) serves refl

serve-IsSafe_example :
    Returns
      (serve no_pages 20480 (aligned 2000) one_block)
      λ r. IsSafe (record { arena = r.1; issued = (r.0, 2000) ∷ (12188, 100) ∷ [] })
serve-IsSafe_example =
    serve-IsSafe {t = one_served} (aligned 2000) 20480 start-IsSafe (later here one-Step)
      (record { ends = omega arith; unused = (inr (omega arith), tt); outside = inr (omega arith) })
      refl (omega arith) (omega arith)

allocate_hugetlb_example : Returns (allocate true no_pages 8192 no_block 100) λ r.
    (r.0 ≡ 2 ^ 64 - 100)
    × (r.1.alloc_bytes_remaining ≡ 2 ^ 64 - 100)
    × (r.1.blocks ≡ no_block.blocks)
allocate_hugetlb_example =
    allocate_hugetlb no_pages 8192 no_block 100 refl (omega arith) (omega arith) (omega arith)
      (omega arith)
