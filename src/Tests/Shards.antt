-- ===== src/Tests/Shards.antt =====
-- A concurrent arena with one shard, over an arena that counts up.
use rocksdb_pmdk.Base.{
  inr, ℕ, ◌+◌, ◌<◌, Returns, ◌^◌, ◌≡◌, refl, true, false, [], ◌∷◌, ltb, if◌then◌else◌, Run, ok,
  fault, alloc_error, arith,
}
use rocksdb_pmdk.Concurrent.{Arena, Shard, ConcurrentNvmArena, reload_size, allocate_impl}
use rocksdb_pmdk.Concurrent.Sharing.{Shared, IsShared}
use rocksdb_pmdk.Concurrent.Calls.{Gives, Step, call, here, later, allocate_impl-IsShared}
use rocksdb_pmdk.Concurrent.Usage.{
  memory_allocated_bytes, allocated_and_unused, irregular_block_num,
  allocate_impl-allocated_and_unused,
}
use rocksdb_pmdk.Base.Words.{add64}

abbrev count_up : ℕ → ℕ → Run (ℕ × ℕ)
count_up n a = if ltb (a + n) (2 ^ 64) then ok (a, a + n) else fault alloc_error

count_up-ends : (n p a a' : ℕ) → count_up n a ≡ ok (p, a') → p + n < 2 ^ 64
count_up-ends n p a a' e = ground arith

abbrev counting : Arena ℕ
counting = record {
  allocate_aligned = count_up;
  allocated_and_unused = λ a. 0;
  memory_allocated_bytes = λ a. a;
  irregular_block_num = λ a. 0;
  is_in_inline_block = λ a. false;
  ends = count_up-ends;
}

abbrev one_shard : Shard
one_shard = record { free_begin = 1000; allocated_and_unused = 8 }

abbrev few_bytes_left : ConcurrentNvmArena ℕ
few_bytes_left = record {
  shard_block_size = 256;
  shards = one_shard ∷ [];
  arena = 5000;
  arena_allocated_and_unused = 0;
  memory_allocated_bytes = 5000;
  irregular_block_num = 0;
}

-- The shard gets a block of 256 bytes at 5000, and the piece of 30 bytes is cut off from its end.
abbrev reloaded : ConcurrentNvmArena ℕ
reloaded = record {
  shard_block_size = 256;
  shards = record { free_begin = 5000; allocated_and_unused = 226 } ∷ [];
  arena = 5256;
  arena_allocated_and_unused = 0;
  memory_allocated_bytes = 5256;
  irregular_block_num = 0;
}

reloads :
    allocate_impl counting (count_up 30) 30 false 1 true 0 few_bytes_left ≡ ok (5226, reloaded)
unfolding allocate_impl reload_size
reloads = refl

-- The free bytes of the shard, behind one piece from the arena.
abbrev in_use : Shared ℕ
in_use = record { arena = few_bytes_left; issued = (4000, 24) ∷ [] }

in_use-IsShared : IsShared counting in_use
in_use-IsShared = record {
  counted = refl;
  issued_apart = (tt, tt);
  frees_apart = (tt, tt);
  apart = ((inr (omega arith), tt), tt);
  ends = (omega arith, tt);
}

in_use-Gives : Gives counting (count_up 30) 30 in_use
unfolding reload_size
in_use-Gives = record {
  direct = (_, refl, ((inr (omega arith), tt), (inr (omega arith), tt)));
  block = (_, refl, ((inr (omega arith), tt), (inr (omega arith), tt)));
}

abbrev both : Shared ℕ
both = record { arena = reloaded; issued = (5226, 30) ∷ (4000, 24) ∷ [] }

in_use-Step : Step counting in_use both
in_use-Step =
    call (count_up 30) 30 false 1 true 0 one_shard (5226, reloaded) in_use-Gives refl reloads refl

allocate_impl-allocated_and_unused_example :
    Returns (allocate_impl counting (count_up 8) 8 false 1 true 0 few_bytes_left) λ r.
      (add64 (allocated_and_unused r.1) 8 ≡ allocated_and_unused few_bytes_left)
      × (memory_allocated_bytes r.1 ≡ memory_allocated_bytes few_bytes_left)
      × (irregular_block_num r.1 ≡ irregular_block_num few_bytes_left)
allocate_impl-allocated_and_unused_example =
    allocate_impl-allocated_and_unused counting (count_up 8) 8 true 1 0 few_bytes_left one_shard
      one_shard (λ e. ground arith) (omega arith) refl refl (omega arith) (omega arith)

both-Gives : Gives counting (count_up 16) 16 both
unfolding reload_size
both-Gives = record {
  direct = (_, refl, ((inr (omega arith), tt), (inr (omega arith), (inr (omega arith), tt))));
  block = (_, refl, ((inr (omega arith), tt), (inr (omega arith), (inr (omega arith), tt))));
}

allocate_impl-IsShared_example :
    Returns (allocate_impl counting (count_up 16) 16 false 1 true 0 reloaded) λ r.
      IsShared counting (record { arena = r.1; issued = (r.0, 16) ∷ (5226, 30) ∷ (4000, 24) ∷ [] })
allocate_impl-IsShared_example =
    allocate_impl-IsShared {w = both} (count_up 16) 16 false 1 true 0
      (record { free_begin = 5000; allocated_and_unused = 226 }) in_use-IsShared
      (later here in_use-Step) both-Gives refl
