-- ===== src/Cache/Contents/Listing.antt =====
-- What `NewIterator` hands out of a cache that was filled by calls of `AppendToRange`.
use rocksdb_pmdk.Base.{
  ℕ, ◌<◌, ◌≤◌, ◌^◌, ◌≡◌, ◌↔◌, refl, ◌∙◌, sym, subst, Bool, false, Option, none, some, Option-cases,
  inl, inr, List, [], ◌∷◌, Bytes, length, Run, ok, ◌>>=◌, Returns,
}
use rocksdb_pmdk.Cache.{WriteCache}
use rocksdb_pmdk.Cache.Contents.{Model, Owned, Slot, Keeps}
use rocksdb_pmdk.Cache.Contents.NewPool.{no_ranges, opened, AreApart, serve_all-Served}
use rocksdb_pmdk.Cache.Contents.Series.{Request, chunks_of, note_all, AreServable, serve_all}
use rocksdb_pmdk.Cache.Contents.Steps.{IsAmple, some_inj}
use rocksdb_pmdk.Cache.Open.{PersistentInfo, new_iterator}
use rocksdb_pmdk.Cache.Ranges.{Range, RangeList, find, find-head, find-tail, AreDistinct}
use rocksdb_pmdk.Cache.Scan.{Holds, AllHold, AllScan, new_iterator-AllScan}
use rocksdb_pmdk.Chunk.Iterator.{PersistentChunkIterator}
use rocksdb_pmdk.Comparator.{Comparator}
use rocksdb_pmdk.Memory.{Fixed64}
use rocksdb_pmdk.NvRangeTab.{Pool}
use rocksdb_pmdk.RangeTab.Get.Rounds.{Chunk}
use rocksdb_pmdk.RangeTab.State.{Options}

-- The chunks of each entry, in the order of the list.
abbrev pub chunks_by_entry : Model → RangeList → List (List Chunk)
chunks_by_entry m [] = []
chunks_by_entry m ((p, r) ∷ rs) = chunks_of (m p) ∷ chunks_by_entry m rs

module _ ⦃fixed : Fixed64⦄ (sizeof_p_buf : ℕ) (options : Options) (icmp : Comparator)
    {F : Type 0} where
  -- Exactly the prefixes that the model has are listed, each once, and the iterators of an entry read
  -- as the chunks of its prefix.
  pub record AreListed (m : Model) (c : WriteCache F) (itss : List (List PersistentChunkIterator))
      : Type 0 where
    pub scans :
        AllScan sizeof_p_buf options icmp c.heap c.prefix2range itss
          (chunks_by_entry m c.prefix2range)
    pub distinct : AreDistinct c.prefix2range
    pub listed : (p : Bytes) → (find p c.prefix2range ≡ none) ↔ (m p ≡ none)

  module _ (n : ℕ) (m : Model) (c : WriteCache F) (v : Keeps sizeof_p_buf options icmp n m c) where
    entry-Holds :
        (p : Bytes) (r : Range)
        → find p c.prefix2range ≡ some r
        → Holds sizeof_p_buf options icmp c.heap r (chunks_of (m p))
    entry-Holds p r found = elim (Option-cases (m p)) [
      | inl missing ↦
          let gone : find p c.prefix2range ≡ none =
            subst (λ (x : Option (List Chunk)). Slot sizeof_p_buf options icmp c p x) missing
              (v.slots p) in
          absurd (cc)
      | inr (cs, has) ↦
          let o : Owned sizeof_p_buf options icmp c p cs =
            subst (λ (x : Option (List Chunk)). Slot sizeof_p_buf options icmp c p x) has
              (v.slots p) in
          let same : o.range ≡ r = some_inj (sym o.listed ∙ found) in
          rw (has, ← same)
            (record { node = o.node; at = o.at; base = 0; target = []; chunks = o.holds [] })
    ]

    entries-AllHold :
        (rs : RangeList)
        → AreDistinct rs
        → ((p : Bytes) (r : Range) → find p rs ≡ some r → find p c.prefix2range ≡ some r)
        → AllHold sizeof_p_buf options icmp c.heap rs (chunks_by_entry m rs)
    entries-AllHold [] d inside = tt
    entries-AllHold ((p, r) ∷ rs) (gone, d) inside = (
      entry-Holds p r (inside p r (find-head p r rs)),
      entries-AllHold rs d (λ q x found. inside q x (find-tail p q r x rs gone found)),
    )

    listed_iff : (p : Bytes) → (find p c.prefix2range ≡ none) ↔ (m p ≡ none)
    listed_iff p = elim (Option-cases (m p)) [
      | inl missing ↦ (
        (λ e. missing),
        (λ e.
            subst (λ (x : Option (List Chunk)). Slot sizeof_p_buf options icmp c p x) missing
              (v.slots p)),
      )
      | inr (cs, has) ↦
          let o : Owned sizeof_p_buf options icmp c p cs =
            subst (λ (x : Option (List Chunk)). Slot sizeof_p_buf options icmp c p x) has
              (v.slots p) in
          ((λ e. absurd (cc)), (λ e. absurd (cc)))
    ]

    new_iterator-AreListed : Returns (new_iterator sizeof_p_buf options c) (AreListed m c)
    new_iterator-AreListed =
        let (itss, run, scans) =
          new_iterator-AllScan sizeof_p_buf options icmp c (chunks_by_entry m c.prefix2range)
            (entries-AllHold c.prefix2range v.distinct (λ p r found. found)) in
        (itss, run, record { scans = scans; distinct = v.distinct; listed = listed_iff })

  -- The cache with what `NewIterator` gives of it.
  abbrev pub with_scan : WriteCache F → Run (WriteCache F × List (List PersistentChunkIterator))
  with_scan c = do itss ← new_iterator sizeof_p_buf options c; ok (c, itss)

  module _ (in_compaction : Bool) (fuel : ℕ) (scale : ℕ → F → ℕ) (three_quarters : F)
      (tab_len data_space pmem_size : ℕ) where
    -- A scan gets all that was put in. Over a new pool that does not run out of memory, with a hash map
    -- of fewer than 2 ^ 32 buckets, and at least one, filters of eight bytes and fuel for as many nodes
    -- as there are calls, the constructor returns once it has the root object, and so do any series of
    -- calls of `AppendToRange` with well-formed chunks, for which the buffers of their prefixes have
    -- room, where no prefix has a zero byte, and new nodes get the sequence number 0 and different
    -- addresses that are not null, and then `NewIterator`. The ranges that it goes through then have
    -- exactly the prefixes that had a call, each once, and the iterators of a range are one for each
    -- chunk of its prefix, oldest first, and read as the pairs of that chunk, in order.
    pub new_iterator-serve_all :
        (root : PersistentInfo F) (city_hash : Bytes → ℕ → ℕ → ℕ) (pool : Pool) (qs : List Request)
        → options.chunk_bloom_bits ≡ 8
        → IsAmple pool
        → root.inited ≡ false
        → 0 < tab_len
        → tab_len < 2 ^ 32
        → length qs ≤ fuel
        → AreServable sizeof_p_buf options icmp no_ranges qs
        → AreApart qs
        → Returns
            (opened options in_compaction fuel scale three_quarters tab_len data_space pmem_size
                root
              >>= λ r.
                  serve_all sizeof_p_buf options icmp fuel city_hash pool in_compaction qs r.0
                  >>= with_scan)
            λ r. AreListed (note_all no_ranges qs) r.0 r.1
    new_iterator-serve_all root city_hash pool qs bits ample fresh pos small enough good apart =
        let s =
          serve_all-Served sizeof_p_buf options icmp in_compaction fuel scale three_quarters tab_len
            data_space pmem_size root city_hash pool qs bits ample fresh pos small enough good
            apart in
        let (itss, scan, listed) =
          new_iterator-AreListed s.deepest (note_all no_ranges qs) s.cache s.keeps in
        ((s.cache, itss), rw (s.open_run, s.run, scan) refl, listed)
