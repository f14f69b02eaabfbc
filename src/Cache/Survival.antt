-- ===== src/Cache/Survival.antt =====
-- Reads are the same before the destructor and behind the recovery.
use mathlib.Core.List.{flatten}
use rocksdb_pmdk.Base.{
  ℕ, zero, suc, ◌<◌, ◌≡◌, refl, ◌∙◌, sym, ap, true, false, ◌+◌, of_option, out_of_range, Bool, some,
  List, [], Bytes, length, get_elem?, take-all, Run, ok, ◌>>=◌, Returns,
}
use rocksdb_pmdk.Cache.{WriteCache, read_range, get, rebuild_from_persistent_node}
use rocksdb_pmdk.Cache.Open.{PersistentInfo, cache_over, set_up, close}
use rocksdb_pmdk.Cache.Ranges.{Range, find}
use rocksdb_pmdk.Cache.Restart.{
  Entry, range_of, recovered, AreLinked-IsAt, AreLinked, AreDistinct, find-assign_all,
  rebuild_chains-AreLinked,
}
use rocksdb_pmdk.Comparator.{Comparator}
use rocksdb_pmdk.HashMap.Heap.{Node, deref}
use mathlib.Core.Path.{fun_ext}
use rocksdb_pmdk.Base.Words.{sub64}
use rocksdb_pmdk.Chunk.Iterator.{open_chunk}
use rocksdb_pmdk.ChunkBlk.{ChunkBlk, get_dat_offset}
use rocksdb_pmdk.Memory.{Fixed64, load}
use rocksdb_pmdk.NvRangeTab.{NvRangeTab}
use rocksdb_pmdk.RangeTab
use rocksdb_pmdk.RangeTab.{get_loop}
use rocksdb_pmdk.RangeTab.Blocks.{blocks_at}
use rocksdb_pmdk.RangeTab.Search.{Status, ok_status, not_found, search_in_chunk}
use rocksdb_pmdk.RangeTab.State.{Options, FixedRangeTab, RawPtr, unset}

module _ ⦃fixed : Fixed64⦄ (sizeof_p_buf : ℕ) (options : Options) (icmp : Comparator)
    (target : Bytes) (t : FixedRangeTab) (raw : RawPtr) (in_compaction : Bool) (pendding : ℕ) where
  -- A read looks at the table and the block list, and at nothing else of the range.
  abbrev other : FixedRangeTab
  other = record t { raw = raw; in_compaction = in_compaction; pendding_clean = pendding }

  -- One round of the loop, with what it does for the chunks before.
  abbrev round : (Bytes → Run (Status × Bytes)) → ℕ → Bytes → Run (Status × Bytes)
  round down i out = do
    blk ← of_option out_of_range (get_elem? t.blklist i)
    bloom ← load t.nv.buf blk.offset options.chunk_bloom_bits
    elim (options.key_may_match target bloom) [
      | false ↦ down out
      | true ↦ do
        iter ← open_chunk sizeof_p_buf t.nv.buf (get_dat_offset blk) blk.chunk_len
        s ← search_in_chunk icmp t.nv.buf target iter out
        elim s.status [ ok_status ↦ ok (ok_status, s.out) | not_found ↦ down s.out ]
    ]

  get_loop-other :
      (fuel i : ℕ) (out : Bytes)
      → get_loop sizeof_p_buf options icmp other target fuel i out
        ≡ get_loop sizeof_p_buf options icmp t target fuel i out
  unfolding get_loop
  get_loop-other zero i out = refl
  get_loop-other (suc fuel) i out =
      ap (λ (down : Bytes → Run (Status × Bytes)). round down i out)
        (fun_ext (λ out'. get_loop-other fuel (sub64 i 1) out'))

  get-other :
      (out : Bytes)
      → RangeTab.get sizeof_p_buf options icmp other target out
        ≡ RangeTab.get sizeof_p_buf options icmp t target out
  unfolding RangeTab.get
  get-other out = get_loop-other (length t.blklist + 1) (sub64 (length t.blklist) 1) out

module _ {F : Type 0} ⦃fixed : Fixed64⦄ (sizeof_p_buf : ℕ) (options : Options)
    (prefix_extractor : Bytes → Bytes) (icmp : Comparator) where
  get-found :
      (c : WriteCache F) (key out : Bytes) (owner : Range) (n : Node NvRangeTab)
      → find (prefix_extractor key) c.prefix2range ≡ some owner
      → c.heap owner.node ≡ some n
      → get options sizeof_p_buf prefix_extractor icmp c key out
        ≡ RangeTab.get sizeof_p_buf options icmp (record owner.tab { nv = n.p_content }) key out
  unfolding get read_range deref
  get-found c key out owner n e at = rw (get, e, at) refl

  module _ (in_compaction : Bool) (fuel : ℕ) (scale : ℕ → F → ℕ) (room : Bool) (three_quarters : F)
      (tab_len data_space pmem_size : ℕ) (info : PersistentInfo F) (c : WriteCache F) where
    -- The constructor over what the destructor left, once `pinfo_` is set.
    abbrev reopened : Run (WriteCache F × PersistentInfo F)
    reopened =
        let pool = close info c in
        set_up options in_compaction fuel scale room three_quarters tab_len data_space pmem_size
          pool.0 pool.1 (some pool.1)

    -- Let the root object be initialized, let the hash map have as many buckets as it records, let
    -- its nodes hold well-formed blocks behind their two words, with numbers other than 0, and let
    -- no two have one prefix. Over the pool that the destructor leaves the constructor then
    -- recovers, once it has the root object and with fuel beyond the number of nodes. For a key
    -- whose prefix has a range with its node and its list of blocks, `Get` then returns what it
    -- returned before.
    pub restart-get :
        (ess : List (List Entry)) (i : ℕ) (e : Entry) (owner : Range) (key out : Bytes)
        → info.inited ≡ true
        → length c.range_map.tab ≡ c.range_map.tab_len
        → AreLinked options in_compaction c.heap c.range_map.tab ess
        → AreDistinct (flatten ess)
        → length (flatten ess) < fuel
        → get_elem? (flatten ess) i ≡ some e
        → prefix_extractor key ≡ e.prefix
        → find e.prefix c.prefix2range ≡ some owner
        → owner.node ≡ e.node
        → owner.tab.blklist ≡ blocks_at options.chunk_bloom_bits 16 e.blocks
        → Returns reopened λ r.
          get options sizeof_p_buf prefix_extractor icmp r.0 key out
          ≡ get options sizeof_p_buf prefix_extractor icmp c key out
    unfolding set_up close cache_over rebuild_from_persistent_node recovered
    restart-get ess i e owner key out inited width linked distinct enough listed own found node
          blocks =
        let (q, at) =
          AreLinked-IsAt options in_compaction c.heap c.range_map.tab ess i e linked listed in
        let n : Node NvRangeTab = record { next = q; p_content = e.nv } in
        let fresh = cache_over c.heap (close info c).1 in
        let run =
          rebuild_chains-AreLinked options in_compaction fuel c.range_map.tab ess fresh linked
            enough in
        let after = recovered options in_compaction fresh (flatten ess) in
        let listed' = find-assign_all options in_compaction (flatten ess) [] i e distinct listed in
        let now =
          get-found after key out (range_of options in_compaction e) n (rw own listed') at in
        let before = get-found c key out owner n (rw own found) (rw node at) in
        let whole = take-all c.range_map.tab c.range_map.tab_len width in
        let u : FixedRangeTab = record owner.tab { nv = e.nv } in
        let plain = get-other sizeof_p_buf options icmp key u unset in_compaction 0 out in
        let read : List ChunkBlk → Run (Status × Bytes) = λ blks.
          RangeTab.get sizeof_p_buf options icmp
            (record u {
              blklist = blks;
              raw = unset;
              in_compaction = in_compaction;
              pendding_clean = 0;
            })
            key out in
        (
          (after, (close info c).1),
          rw (inited, whole, run) refl,
          now ∙ sym (ap read blocks) ∙ plain ∙ sym before,
        )
