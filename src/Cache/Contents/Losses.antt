-- ===== src/Cache/Contents/Losses.antt =====
-- What is read behind a restart of a cache whose tables have the number 0.
use rocksdb_pmdk.Base.{
  ℕ, ◌<◌, ◌^◌, ◌≡◌, refl, subst, true, false, Bool, Option, none, some, Option-cases, inl, inr,
  List, [], Bytes, length, take-all, Run, ok, fault, out_of_range, ◌>>=◌, Returns, arith,
}
use rocksdb_pmdk.Cache.{WriteCache, read_range, get, rebuild_from_persistent_node}
use rocksdb_pmdk.Cache.Contents.{Model, Slot, Owned, Keeps}
use rocksdb_pmdk.Cache.Contents.NewPool.{no_ranges, opened, AreApart, serve_all-Served}
use rocksdb_pmdk.Cache.Contents.Reopened.{rebuild_chains-Walked}
use rocksdb_pmdk.Cache.Contents.Series.{Request, note_all, AreServable, serve_all}
use rocksdb_pmdk.Cache.Contents.Steps.{IsAmple, HasText-inj}
use rocksdb_pmdk.Cache.Contents.Walk.{IsFine, Blank}
use rocksdb_pmdk.Cache.Open.{PersistentInfo, cache_over, set_up, close}
use rocksdb_pmdk.Cache.Ranges.{find}
use rocksdb_pmdk.Comparator.{Comparator}
use rocksdb_pmdk.HashMap.Heap.{deref}
use rocksdb_pmdk.Memory.{Fixed64}
use rocksdb_pmdk.NvRangeTab.{Pool}
use rocksdb_pmdk.RangeTab
use rocksdb_pmdk.RangeTab.{get_loop}
use rocksdb_pmdk.RangeTab.Get.Rounds.{Chunk}
use rocksdb_pmdk.RangeTab.Search.{Status, not_found}
use rocksdb_pmdk.RangeTab.State.{Options, FixedRangeTab}

-- What `Get` returns of a range that has lost its chunks.
abbrev pub lost : Option (List Chunk) → Bytes → Run (Status × Bytes)
lost none out = ok (not_found, out)
lost (some cs) out = fault out_of_range

empty_get :
    ⦃fixed : Fixed64⦄ (sizeof_p_buf : ℕ) (options : Options) (icmp : Comparator) (t : FixedRangeTab)
    (key out : Bytes)
    → t.blklist ≡ []
    → RangeTab.get sizeof_p_buf options icmp t key out ≡ fault out_of_range
unfolding RangeTab.get get_loop
empty_get sizeof_p_buf options icmp t key out e = rw e refl

module _ ⦃fixed : Fixed64⦄ (options : Options) (in_compaction : Bool) (fuel : ℕ) {F : Type 0}
    (scale : ℕ → F → ℕ) (three_quarters : F) (tab_len data_space pmem_size : ℕ) where
  -- The constructor over what the destructor left, once it has the root object.
  abbrev pub restarted : PersistentInfo F → WriteCache F → Run (WriteCache F × PersistentInfo F)
  restarted info c =
      let pool = close info c in
      set_up options in_compaction fuel scale true three_quarters tab_len data_space pmem_size
        pool.0 pool.1 (some pool.1)

module _ ⦃fixed : Fixed64⦄ (sizeof_p_buf : ℕ) (options : Options) (icmp : Comparator) {F : Type 0}
    (prefix_extractor : Bytes → Bytes) where
  get-Blank :
      (c : WriteCache F) (key out : Bytes)
      → Blank c (prefix_extractor key)
      → get options sizeof_p_buf prefix_extractor icmp c key out ≡ fault out_of_range
  unfolding get read_range deref
  get-Blank c key out (range, listed, empty, (n, at)) =
      rw (get, listed, at)
        (empty_get sizeof_p_buf options icmp (record range.tab { nv = n.p_content }) key out empty)

  module _ (in_compaction : Bool) (fuel : ℕ) (scale : ℕ → F → ℕ) (three_quarters : F)
      (tab_len data_space pmem_size : ℕ) where
    restarted-lost :
        (n : ℕ) (m : Model) (c : WriteCache F) (info : PersistentInfo F) (key out : Bytes)
        → Keeps sizeof_p_buf options icmp n m c
        → n < fuel
        → info.inited ≡ true
        → Returns
            (restarted options in_compaction fuel scale three_quarters tab_len data_space pmem_size
              info c)
            λ r.
              get options sizeof_p_buf prefix_extractor icmp r.0 key out
              ≡ lost (m (prefix_extractor key)) out
    unfolding set_up close cache_over rebuild_from_persistent_node find
    restarted-lost n m c info key out v enough inited =
        let d = cache_over c.heap (close info c).1 in
        let fine : IsFine d = record {
          texts = λ a x e. let (p, _, own, _) = v.named a x e in (p, own);
          numberless = v.numberless;
        } in
        let (c', run, (w, blanked)) =
          rebuild_chains-Walked options in_compaction fuel c.range_map.tab d fine
            (λ i p e. let (xs, s, le) = v.chains i p e in (xs, s, omega (arith, le))) in
        let whole = take-all c.range_map.tab c.range_map.tab_len v.width in
        let p = prefix_extractor key in
        let slot = v.slots p in
        (
          (c', (close info c).1),
          rw (inited, whole, run) refl,
          elim (Option-cases (m p)) [
            | inl missing ↦
                let gone = w.others p refl (λ a x e own.
                  let (q, _, own', (cs, has)) = v.named a x e in
                  let same = HasText-inj x.p_content q p own' own in
                  let has' : m p ≡ some cs = rw same at has in absurd (cc)) in
                rw missing (unfold get in rw (get, gone) refl)
            | inr (cs, has) ↦
                let o : Owned sizeof_p_buf options icmp c p cs =
                  subst (λ (x : Option (List Chunk)). Slot sizeof_p_buf options icmp c p x) has
                    slot in
                let (i, (head, at, chain)) = o.linked in
                rw has
                  (get-Blank c' key out (blanked i head at o.range.node o.node chain o.at p o.text))
          ],
        )

    -- No chunk survives a restart. Over a new pool that does not run out of memory, with a hash map of
    -- fewer than 2 ^ 32 buckets, and at least one, filters of eight bytes and fuel for more nodes than
    -- there are calls, the constructor returns once it has the root object, and so do any series of
    -- calls of `AppendToRange` with well-formed chunks, for which the buffers of their prefixes have
    -- room, where no prefix has a zero byte, and new nodes get the sequence number 0 and different
    -- addresses that are not null, and then the constructor over what the destructor leaves. `Get` then
    -- throws `std::out_of_range` for every key whose prefix had a call, and returns `NotFound` for others.
    pub get-restarted :
        (root : PersistentInfo F) (city_hash : Bytes → ℕ → ℕ → ℕ) (pool : Pool) (qs : List Request)
        (key out : Bytes)
        → options.chunk_bloom_bits ≡ 8
        → IsAmple pool
        → root.inited ≡ false
        → 0 < tab_len
        → tab_len < 2 ^ 32
        → length qs < fuel
        → AreServable sizeof_p_buf options icmp no_ranges qs
        → AreApart qs
        → Returns
            (opened options in_compaction fuel scale three_quarters tab_len data_space pmem_size
                root
              >>= λ r.
                  serve_all sizeof_p_buf options icmp fuel city_hash pool in_compaction qs r.0
                  >>= λ c.
                      restarted options in_compaction fuel scale three_quarters tab_len data_space
                        pmem_size r.1 c)
            λ r.
              get options sizeof_p_buf prefix_extractor icmp r.0 key out
              ≡ lost (note_all no_ranges qs (prefix_extractor key)) out
    get-restarted root city_hash pool qs key out bits ample fresh pos small enough good apart =
        let s =
          serve_all-Served sizeof_p_buf options icmp in_compaction fuel scale three_quarters tab_len
            data_space pmem_size root city_hash pool qs bits ample fresh pos small (omega arith)
            good apart in
        let (r, again, read) =
          restarted-lost s.deepest (note_all no_ranges qs) s.cache s.made.1 key out s.keeps
            (omega (arith, s.few)) s.inited in
        (r, rw (s.open_run, s.run) again, read)
