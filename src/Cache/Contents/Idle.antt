-- ===== src/Cache/Contents/Idle.antt =====
-- `MaybeNeedCompaction` on a cache that was filled by calls of `AppendToRange`.
use rocksdb_pmdk.Allocator.{new_allocator, remain, capacity}
use rocksdb_pmdk.Base.{
  ℕ, ◌*◌, ◌<◌, ◌≤◌, ◌^◌, ◌≡◌, refl, ◌∙◌, sym, Bool, false, Option, some, inl, inr, Run-cases, List,
  [], ◌∷◌, Bytes, length, ltb, ltb-eq_false_of_le, Run, ok, ◌>>=◌, Returns, arith,
}
use rocksdb_pmdk.Cache.{
  WriteCache, write_range, new_range, append_to_range, maybe_need_compaction, need_compaction,
}
use rocksdb_pmdk.Cache.Contents.NewPool.{no_ranges, opened, AreApart, serve_all-Served}
use rocksdb_pmdk.Cache.Contents.Series.{Request, AreServable, serve, serve_all}
use rocksdb_pmdk.Cache.Contents.Steps.{IsAmple}
use rocksdb_pmdk.Cache.Open.{PersistentInfo, cache_over, set_up}
use rocksdb_pmdk.Cache.Ranges.{Range}
use rocksdb_pmdk.Chunk.Format.{chunk_bytes}
use rocksdb_pmdk.HashMap.{init}
use rocksdb_pmdk.Comparator.{Comparator}
use rocksdb_pmdk.HashMap.Heap.{Ptr}
use rocksdb_pmdk.Memory.{Fixed64}
use rocksdb_pmdk.NvRangeTab.{Pool}
use rocksdb_pmdk.RangeTab.State.{Options, Usage}

-- What `MaybeNeedCompaction` reads and writes, but for the ranges, is the same in both.
abbrev pub IsIdle : {F : Type 0} → WriteCache F → WriteCache F → Type 0
IsIdle c c' = (c'.allocator ≡ c.allocator) × (c'.range_queue ≡ c.range_queue)

need_compaction-empty :
    {F : Type 0} (c : WriteCache F) → c.range_queue ≡ [] → need_compaction c ≡ false
unfolding need_compaction
need_compaction-empty c e = rw e refl

module _ ⦃fixed : Fixed64⦄ (options : Options) {F : Type 0} (fuel : ℕ)
    (city_hash : Bytes → ℕ → ℕ → ℕ) (pool : Pool) (seq_init : ℕ) (in_compaction : Bool) where
  new_range-IsIdle :
      (fresh : Option Ptr) (c : WriteCache F) (prefix : Bytes) (r : Range × WriteCache F)
      → new_range options fuel city_hash pool seq_init in_compaction fresh c prefix ≡ ok r
      → IsIdle c r.1
  unfolding new_range write_range
  new_range-IsIdle fresh c prefix r run = ground arith

  append_to_range-IsIdle :
      (icmp : Comparator) (fresh : Option Ptr) (c c' : WriteCache F)
      (prefix bloom_data chunk_data cur_start cur_end : Bytes)
      → append_to_range options fuel city_hash pool seq_init in_compaction icmp fresh c prefix
          bloom_data chunk_data cur_start cur_end
        ≡ ok c'
      → IsIdle c c'
  unfolding append_to_range
  append_to_range-IsIdle icmp fresh c c' prefix bloom_data chunk_data cur_start cur_end run =
      ground (arith, new_range-IsIdle fresh c prefix)

module _ ⦃fixed : Fixed64⦄ (sizeof_p_buf : ℕ) (options : Options) (icmp : Comparator) {F : Type 0}
    (fuel : ℕ) (city_hash : Bytes → ℕ → ℕ → ℕ) (pool : Pool) (in_compaction : Bool) where
  serve_all-IsIdle :
      (qs : List Request) (c c' : WriteCache F)
      → serve_all sizeof_p_buf options icmp fuel city_hash pool in_compaction qs c ≡ ok c'
      → IsIdle c c'
  unfolding serve_all
  serve_all-IsIdle [] c c' run = ground arith
  serve_all-IsIdle (q ∷ qs) c c' run =
      elim (Run-cases (serve sizeof_p_buf options icmp fuel city_hash pool in_compaction c q)) [
        | inl (d, first) ↦
            let (same, queue) =
              append_to_range-IsIdle options fuel city_hash pool 0 in_compaction icmp
                (some q.address) c d q.prefix q.chunk.bloom (chunk_bytes q.chunk.pairs q.chunk.gap)
                q.start q.end first in
            let (same', queue') = serve_all-IsIdle qs d c' (sym (rw first refl) ∙ run) in
            (same' ∙ same, queue' ∙ queue)
        | inr (why, failed) ↦ absurd (ground arith)
      ]

  module _ (scale : ℕ → F → ℕ) (three_quarters : F) (tab_len data_space pmem_size : ℕ)
      (root : PersistentInfo F) where
    abbrev start : Run (WriteCache F × PersistentInfo F)
    start = opened options in_compaction fuel scale three_quarters tab_len data_space pmem_size root

    opened-queue :
        (r : WriteCache F × PersistentInfo F)
        → root.inited ≡ false
        → start ≡ ok r
        → (r.0.allocator ≡ new_allocator data_space pmem_size) × (r.0.range_queue ≡ [])
    unfolding set_up cache_over init
    opened-queue r fresh run = ground arith

    -- A cache whose allocator has handed out nothing does not ask for a compaction.
    maybe_need_compaction-spare :
        (blank : Usage) (c : WriteCache F)
        → pmem_size < 2 ^ 64
        → c.allocator ≡ new_allocator data_space pmem_size
        → maybe_need_compaction blank c ≡ ok c
    unfolding maybe_need_compaction remain capacity new_allocator
    maybe_need_compaction-spare blank c small same =
        let enough : ltb (4 * remain c.allocator) (3 * capacity c.allocator) ≡ false =
          ltb-eq_false_of_le (4 * remain c.allocator) (3 * capacity c.allocator)
            (rw same (omega arith)) in
        rw enough refl

    -- No series of appends leads to a compaction. Over a new pool of fewer than 2 ^ 64 bytes that does
    -- not run out of memory, with a hash map of fewer than 2 ^ 32 buckets, and at least one, filters of
    -- eight bytes and fuel for as many nodes as there are calls, the constructor returns once it has the
    -- root object, and so do any series of calls of `AppendToRange` with well-formed chunks, for which
    -- the buffers of their prefixes have room, where no prefix has a zero byte, and new nodes get the
    -- sequence number 0 and different addresses that are not null, and then `MaybeNeedCompaction`.
    -- However much was put in, the allocator's whole capacity then remains, and `NeedCompaction` answers
    -- false.
    pub maybe_need_compaction-serve_all :
        (qs : List Request) (blank : Usage)
        → options.chunk_bloom_bits ≡ 8
        → IsAmple pool
        → root.inited ≡ false
        → 0 < tab_len
        → tab_len < 2 ^ 32
        → pmem_size < 2 ^ 64
        → length qs ≤ fuel
        → AreServable sizeof_p_buf options icmp no_ranges qs
        → AreApart qs
        → Returns
            (start >>= λ r.
              serve_all sizeof_p_buf options icmp fuel city_hash pool in_compaction qs r.0
              >>= maybe_need_compaction blank)
            λ c. (need_compaction c ≡ false) × (remain c.allocator ≡ capacity c.allocator)
    unfolding remain capacity new_allocator
    maybe_need_compaction-serve_all qs blank bits ample fresh pos few small enough good apart =
        let s =
          serve_all-Served sizeof_p_buf options icmp in_compaction fuel scale three_quarters tab_len
            data_space pmem_size root city_hash pool qs bits ample fresh pos few enough good
            apart in
        let (made, none_queued) = opened-queue s.made fresh s.open_run in
        let (same, queue) = serve_all-IsIdle qs s.made.0 s.cache s.run in
        (
          s.cache,
          rw (s.open_run, s.run) (maybe_need_compaction-spare blank s.cache small (same ∙ made)),
          (need_compaction-empty s.cache (queue ∙ none_queued), rw (same, made) (omega arith)),
        )
