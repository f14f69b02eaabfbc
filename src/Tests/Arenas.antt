-- ===== src/Tests/Arenas.antt =====
-- Arenas: a persistent allocator and a mapped block.
use rocksdb_pmdk.Allocator.{
  PersistentAllocator, allocate_all, allocate, remain, capacity, Tiles, allocate_all-Tiles,
  allocate-wraps,
}
use rocksdb_pmdk.Arena.{NvmArena, new_arena}
use rocksdb_pmdk.Arena.Serve.{IsArena, new_arena-IsArena}
use rocksdb_pmdk.Arena.Series.{Request, serve, Allotted, serve-Allotted}
use rocksdb_pmdk.Base.{◌≡◌, refl, ◌<◌, ◌+◌, some, List, [], ◌∷◌, Returns, arith}

abbrev half_used : PersistentAllocator
half_used = record { raw = 100; total_size = 64; cur = 32 }

allocate_all-Tiles_example :
    let r = allocate_all (8 ∷ 16 ∷ []) half_used in
    Tiles 132 r.0 156 × (remain r.1 + 24 ≡ remain half_used) × (capacity r.1 ≡ capacity half_used)
allocate_all-Tiles_example = allocate_all-Tiles (8 ∷ 16 ∷ []) half_used (omega arith) (omega arith)

allocate-wraps_example : capacity half_used < remain (allocate half_used 33).1
allocate-wraps_example = allocate-wraps half_used 33 (omega arith) (omega arith) (omega arith)

new_arena-IsArena_example : Returns (new_arena (λ n. n) (λ n. some 4096) 128) IsArena
new_arena-IsArena_example = new_arena-IsArena (λ n. n) (λ n. some 4096) 128 4096 refl (omega arith)

abbrev used_arena : NvmArena
used_arena = record {
  block_addr = 4096;
  block_sz = 1024;
  k_block_size = 1024;
  unaligned_alloc_ptr = 5100;
  aligned_alloc_ptr = 4104;
  alloc_bytes_remaining = 996;
  blocks = [];
  blocks_memory = 1024;
  irregular_block_num = 0;
}

used_arena-IsArena : IsArena used_arena
used_arena-IsArena = record {
  left = omega arith;
  middle = refl;
  right = omega arith;
  small = omega arith;
  counted = refl;
}

abbrev three_requests : List Request
three_requests = Request.aligned 40 ∷ Request.unaligned 7 ∷ Request.aligned 8 ∷ []

serve-Allotted_example :
    Returns (serve three_requests used_arena) (Allotted used_arena three_requests)
serve-Allotted_example =
    serve-Allotted three_requests used_arena used_arena-IsArena (omega arith, tt) (omega arith)
