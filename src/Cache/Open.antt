-- ===== src/Cache/Open.antt =====
-- The constructor and the destructor of the cache, and `NewIterator`. The length of the hash map and
-- the array for the data, which the source leaves open, are parameters, as are what `pool::open` or
-- `pool::create` gives and the size of the pool.
use rocksdb_pmdk.Allocator.{PersistentAllocator, new_allocator}
use rocksdb_pmdk.Base.{
  ℕ, Bool, true, Option, none, List, [], ◌∷◌, Bytes, if◌then◌else◌, Run, ok, null_pointer,
  of_option, ◌>>=◌,
}
use rocksdb_pmdk.Cache.{WriteCache, read_range, rebuild_from_persistent_node}
use rocksdb_pmdk.Cache.Ranges.{RangeList}
use rocksdb_pmdk.Chunk.Iterator.{PersistentChunkIterator}
use rocksdb_pmdk.HashMap.{PmemHashMap, init}
use rocksdb_pmdk.HashMap.Heap.{Store}
use rocksdb_pmdk.Memory.{Fixed64}
use rocksdb_pmdk.NvRangeTab.{NvRangeTab}
use rocksdb_pmdk.RangeTab.{child_iterators}
use rocksdb_pmdk.RangeTab.State.{Options}

-- The root object of the pool.
pub record PersistentInfo (F : Type 0) : Type 0 where
  pub inited : Bool
  pub allocated_bits : ℕ
  pub range_map : PmemHashMap F
  pub allocator : PersistentAllocator

-- `ChunkMeta`
pub record ChunkMeta : Type 0 where
  pub prefix : Bytes
  pub cur_start : Bytes
  pub cur_end : Bytes

-- `NewIterator`: the chunk iterators that each range hands to the merging iterator, in order.
unfoldable pub range_iterators :
    ⦃fixed : Fixed64⦄
    → (sizeof_p_buf : ℕ) → Options
    → Store NvRangeTab
    → RangeList
    → Run (List (List PersistentChunkIterator))
range_iterators sizeof_p_buf options heap [] = ok []
range_iterators sizeof_p_buf options heap ((_, range) ∷ ranges) = do
  t ← read_range heap range
  its ← child_iterators sizeof_p_buf options t.nv.buf t.blklist
  rest ← range_iterators sizeof_p_buf options heap ranges
  ok (its ∷ rest)

module _ {F : Type 0} where
  -- The cache in memory over what lies in the pool.
  unfoldable pub cache_over : Store NvRangeTab → PersistentInfo F → WriteCache F
  cache_over heap info = record {
    heap = heap;
    range_map = info.range_map;
    allocator = info.allocator;
    prefix2range = [];
    range_queue = [];
  }

  module _ ⦃fixed : Fixed64⦄ (options : Options) (in_compaction : Bool) (fuel : ℕ)
      (scale : ℕ → F → ℕ) (room : Bool) (three_quarters : F) (tab_len data_space pmem_size : ℕ)
      (heap : Store NvRangeTab) (root : PersistentInfo F) where
    -- The body of the constructor behind the opening of the pool, with `pinfo_` as it is there and
    -- `root` as the root object of the pool.
    unfoldable pub set_up :
        (pinfo : Option (PersistentInfo F)) → Run (WriteCache F × PersistentInfo F)
    unfolding cache_over
    set_up pinfo = do
      info ← of_option null_pointer pinfo
      let recovered =
          rebuild_from_persistent_node options in_compaction fuel (cache_over heap info) >>= λ c.
          ok (c, info)
      let created = init scale room three_quarters tab_len >>= λ range_map.
          let info' : PersistentInfo F = record root {
            inited = true;
            range_map = range_map;
            allocator = new_allocator data_space pmem_size;
          } in
          ok (cache_over heap info', info')
      if info.inited then recovered else created

    -- The constructor. `pinfo_` is read before it is set, when it is still a null pointer.
    unfoldable pub new_cache : Run (WriteCache F × PersistentInfo F)
    unfolding set_up
    new_cache = set_up none

  -- The destructor: what stays in the pool, where `info` is the root object of before.
  unfoldable pub close : PersistentInfo F → WriteCache F → Store NvRangeTab × PersistentInfo F
  close info c = (c.heap, record info { range_map = c.range_map; allocator = c.allocator })

  unfoldable pub new_iterator :
      ⦃fixed : Fixed64⦄
      → (sizeof_p_buf : ℕ) → Options
      → WriteCache F
      → Run (List (List PersistentChunkIterator))
  unfolding range_iterators
  new_iterator sizeof_p_buf options c = range_iterators sizeof_p_buf options c.heap c.prefix2range

  unfoldable pub get_range_list : WriteCache F → RangeList
  get_range_list c = c.prefix2range
