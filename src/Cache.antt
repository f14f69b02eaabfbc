-- ===== src/Cache.antt =====
-- fixed_range_chunk_based_nvm_write_cache.h and fixed_range_chunk_based_nvm_write_cache.cc: the cache.
-- A range in memory points to the node of its table in the hash map: `node` is that pointer, the
-- table is read from the heap before a call and written back behind it. A range is named by its
-- prefix, and a list in the order of the iteration stands for the `unordered_map`.
pub mod Ranges
pub mod Routing
pub mod Choice
pub mod Open
pub mod Restart
pub mod Survival
pub mod Contents
pub mod Scan
use rocksdb_pmdk.Allocator.{PersistentAllocator, remain, capacity}
use rocksdb_pmdk.Base.{
  ℕ, zero, suc, ◌*◌, ◌^◌, Bool, true, false, Option, none, some, List, [], ◌∷◌, ◌++◌, Bytes, take,
  get_elem?, out_of_bounds, of_option, ltb, ◌==◌, if◌then◌else◌, Run, ok, fault, null_pointer,
  out_of_fuel, ◌>>=◌,
}
use rocksdb_pmdk.Comparator.{Comparator}
use rocksdb_pmdk.HashMap.{PmemHashMap}
use rocksdb_pmdk.HashMap.Heap.{Ptr, null, Node, Store, update, deref}
use rocksdb_pmdk.HashMap.Nodes.{put_and_get}
use rocksdb_pmdk.Memory.{Fixed64, load}
use rocksdb_pmdk.NvRangeTab.{NvRangeTab, Pool}
use rocksdb_pmdk.RangeTab
use rocksdb_pmdk.RangeTab.{new_range_tab, range_usage}
use rocksdb_pmdk.RangeTab.Search.{Status, not_found}
use rocksdb_pmdk.RangeTab.State.{Options, FixedRangeTab, Usage}
use Ranges.{Range, RangeList, find, assign}

-- The fields of a `CompactionItem`; `pending_compated_range` is a pointer that may be null.
pub record CompactionItem : Type 0 where
  pub pending_compated_range : Option Bytes
  pub start_key : Bytes
  pub end_key : Bytes
  pub range_size : ℕ
  pub chunk_num : ℕ

-- The parts of `PersistentInfo` and of `VolatileInfo` that change.
pub record WriteCache (F : Type 0) : Type 0 where
  pub heap : Store NvRangeTab
  pub range_map : PmemHashMap F
  pub allocator : PersistentAllocator
  pub prefix2range : RangeList
  pub range_queue : List CompactionItem

-- What a range reads: its fields in memory with its table in the heap.
unfoldable pub read_range : Store NvRangeTab → Range → Run FixedRangeTab
read_range heap range = deref heap range.node >>= λ n. ok (record range.tab { nv = n.p_content })

-- What a range has written goes to its table in the heap.
unfoldable pub write_range :
    Store NvRangeTab → Range → FixedRangeTab → Run (Store NvRangeTab × Range)
write_range heap range t = deref heap range.node >>= λ n.
    ok (update heap range.node (record n { p_content = t.nv }), record range { tab = t })

module _ {F : Type 0} (options : Options) where
  -- `Get`.
  unfoldable pub get :
      ⦃fixed : Fixed64⦄
      → (sizeof_p_buf : ℕ) → (prefix_extractor : Bytes → Bytes) → Comparator
      → WriteCache F
      → Bytes
      → Bytes
      → Run (Status × Bytes)
  get sizeof_p_buf prefix_extractor icmp c key out =
      elim (find (prefix_extractor key) c.prefix2range) [
        | none ↦ ok (not_found, out)
        | some range ↦
            read_range c.heap range >>= λ t. RangeTab.get sizeof_p_buf options icmp t key out
      ]

  module _ ⦃fixed : Fixed64⦄ (fuel : ℕ) (city_hash : Bytes → ℕ → ℕ → ℕ) (pool : Pool) (seq_init : ℕ)
      (in_compaction : Bool) where
    -- `NewRange`, with a buffer of 64 MB; `insert` is only reached for a prefix that is not there.
    unfoldable pub new_range :
        (fresh : Option Ptr) → WriteCache F → Bytes → Run (Range × WriteCache F)
    unfolding write_range
    new_range fresh c prefix = do
      (node, heap, range_map) ←
          put_and_get fuel c.heap c.range_map city_hash pool seq_init fresh prefix (2 ^ 26)
      n ← deref heap node
      tab ← new_range_tab options n.p_content in_compaction
      (heap', range) ← write_range heap (record { node = node; tab = tab }) tab
      ok (
        range,
        record c {
          heap = heap';
          range_map = range_map;
          prefix2range = assign prefix range c.prefix2range;
        },
      )

    unfoldable pub append_to_range :
        Comparator
        → (fresh : Option Ptr) → WriteCache F
        → (prefix bloom_data chunk_data : Bytes) → (cur_start cur_end : Bytes) → Run (WriteCache F)
    unfolding new_range
    append_to_range icmp fresh c prefix bloom_data chunk_data cur_start cur_end = do
      (now_range, c') ← elim (find prefix c.prefix2range) [
        | none ↦ new_range fresh c prefix
        | some range ↦ ok (range, c)
      ]
      t ← read_range c'.heap now_range
      t' ← RangeTab.append options icmp pool t bloom_data chunk_data cur_start cur_end
      (heap, range) ← write_range c'.heap now_range t'
      ok (record c' { heap = heap; prefix2range = assign prefix range c'.prefix2range })

-- The loop of `MaybeNeedCompaction`: `max_range_size` is read and never written.
unfoldable pub choose :
    ⦃fixed : Fixed64⦄
    → Store NvRangeTab
    → (max_range_size : ℕ) → RangeList
    → Option Bytes × Usage
    → Run (Option Bytes × Usage)
choose heap max_range_size [] pendding = ok pendding
choose heap max_range_size ((prefix, range) ∷ ranges) pendding = do
  t ← read_range heap range
  usage ← range_usage t
  choose heap max_range_size ranges
      (if ltb max_range_size usage.range_size then (some prefix, usage) else pendding)

-- The sizes are below 2 ^ 53, where the comparison with the product by 0.75 is exact. `blank` is
-- what an unset `Usage` holds.
unfoldable pub maybe_need_compaction :
    {F : Type 0} → ⦃fixed : Fixed64⦄ → (blank : Usage) → WriteCache F → Run (WriteCache F)
unfolding choose
maybe_need_compaction blank c = do
  let item = choose c.heap 0 c.prefix2range (none, blank) >>= λ r. ok (record c {
    range_queue =
        c.range_queue
        ++ record {
          pending_compated_range = r.0;
          start_key = r.1.start;
          end_key = r.1.end;
          range_size = r.1.range_size;
          chunk_num = r.1.chunk_num;
        }
          ∷ [];
  })
  if ltb (4 * remain c.allocator) (3 * capacity c.allocator) then item else ok c

unfoldable pub need_compaction : {F : Type 0} → WriteCache F → Bool
need_compaction c = elim c.range_queue [ [] ↦ false | _ ∷ _ ↦ true ]

-- `GetCompactionData`: the front of the queue, which stays in it. There is none in an empty queue.
unfoldable pub get_compaction_data : {F : Type 0} → WriteCache F → Run CompactionItem
get_compaction_data c = of_option out_of_bounds (get_elem? c.range_queue 0)

module _ {F : Type 0} ⦃fixed : Fixed64⦄ (options : Options) (in_compaction : Bool) where
  -- The inner loop of `RebuildFromPersistentNode`, along one chain.
  unfoldable pub rebuild_chain : ℕ → Ptr → WriteCache F → Run (WriteCache F)
  rebuild_chain zero tmp c = fault out_of_fuel
  rebuild_chain (suc fuel) tmp c =
      let round : Run (WriteCache F) = deref c.heap tmp >>= λ n.
      new_range_tab options n.p_content in_compaction >>= λ tab.
      load n.p_content.prefix 0 n.p_content.prefix_len >>= λ prefix.
      write_range c.heap (record { node = tmp; tab = tab }) tab >>= λ r.
      rebuild_chain fuel n.next
        (record c { heap = r.0; prefix2range = assign prefix r.1 c.prefix2range }) in
      if tmp == null then ok c else round

  unfoldable pub rebuild_chains : ℕ → List Ptr → WriteCache F → Run (WriteCache F)
  rebuild_chains fuel [] c = ok c
  rebuild_chains fuel (p ∷ ps) c = rebuild_chain fuel p c >>= rebuild_chains fuel ps

  unfoldable pub rebuild_from_persistent_node : ℕ → WriteCache F → Run (WriteCache F)
  unfolding rebuild_chains
  rebuild_from_persistent_node fuel c =
      rebuild_chains fuel (take c.range_map.tab_len c.range_map.tab) c
