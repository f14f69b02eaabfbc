-- ===== src/Cache/Scan.antt =====
-- The iterators that `NewIterator` hands to the merging iterator.
use rocksdb_pmdk.Base.{ℕ, ◌≡◌, refl, some, List, [], ◌∷◌, Bytes, Returns}
use rocksdb_pmdk.Cache.{WriteCache, read_range}
use rocksdb_pmdk.Cache.Open.{range_iterators, new_iterator}
use rocksdb_pmdk.Cache.Ranges.{Range, RangeList}
use rocksdb_pmdk.Chunk.Iterator.{PersistentChunkIterator}
use rocksdb_pmdk.Comparator.{Comparator}
use rocksdb_pmdk.HashMap.Heap.{Node, Store, deref}
use rocksdb_pmdk.Memory.{Fixed64}
use rocksdb_pmdk.NvRangeTab.{NvRangeTab}
use rocksdb_pmdk.RangeTab.Get.{IsRange}
use rocksdb_pmdk.RangeTab.Get.Rounds.{Chunk}
use rocksdb_pmdk.RangeTab.Scan.{AllView, range-AllView}
use rocksdb_pmdk.RangeTab.State.{Options, FixedRangeTab}

module _ ⦃fixed : Fixed64⦄ (sizeof_p_buf : ℕ) (options : Options) (icmp : Comparator)
    (heap : Store NvRangeTab) where
  -- A range with its node, from the byte `base` of its buffer on.
  pub record Holds (range : Range) (cs : List Chunk) : Type 0 where
    pub node : Node NvRangeTab
    pub at : heap range.node ≡ some node
    pub base : ℕ
    pub target : Bytes
    pub chunks :
        IsRange sizeof_p_buf options icmp (record range.tab { nv = node.p_content }) target base cs

  -- The ranges of the cache hold these chunks, in the order of the iteration.
  abbrev pub AllHold : RangeList → List (List Chunk) → Type 0
  AllHold [] [] = Unit
  AllHold ((_, range) ∷ ranges) (cs ∷ css) = Holds range cs × AllHold ranges css
  AllHold ranges css = ⊥

  -- The iterators of each range read, in the buffer of its node, as the pairs of its chunks.
  abbrev pub AllScan : RangeList → List (List PersistentChunkIterator) → List (List Chunk) → Type 0
  AllScan [] [] [] = Unit
  AllScan ((_, range) ∷ ranges) (its ∷ itss) (cs ∷ css) =
      ((n : Node NvRangeTab) × (heap range.node ≡ some n) × AllView n.p_content.buf its cs)
      × AllScan ranges itss css
  AllScan ranges itss css = ⊥

  range_iterators-AllScan :
      (ranges : RangeList) (css : List (List Chunk))
      → AllHold ranges css
      → Returns (range_iterators sizeof_p_buf options heap ranges) λ itss. AllScan ranges itss css
  unfolding range_iterators read_range deref
  range_iterators-AllScan [] [] h = ([], refl, tt)
  range_iterators-AllScan ((p, range) ∷ ranges) (cs ∷ css) h =
      let (own, rest) = h in
      let t : FixedRangeTab = record range.tab { nv = own.node.p_content } in
      let (its, run, views) =
        range-AllView sizeof_p_buf options icmp t own.target own.base cs own.chunks in
      let (itss, runs, scans) = range_iterators-AllScan ranges css rest in
      (its ∷ itss, rw (own.at, run, runs) refl, ((own.node, own.at, views), scans))
  range_iterators-AllScan [] (cs ∷ css) h = absurd h
  range_iterators-AllScan (r ∷ ranges) [] h = absurd h

-- Where every range of the cache holds well-formed chunks, `NewIterator` returns: the merging iterator
-- gets, for each range in the order of the iteration, one iterator for each of its chunks, oldest
-- first, and each reads as the pairs of its chunk, in order.
pub new_iterator-AllScan :
    ⦃fixed : Fixed64⦄ {F : Type 0} (sizeof_p_buf : ℕ) (options : Options) (icmp : Comparator)
    (c : WriteCache F) (css : List (List Chunk))
    → AllHold sizeof_p_buf options icmp c.heap c.prefix2range css
    → Returns
        (new_iterator sizeof_p_buf options c)
        λ itss. AllScan sizeof_p_buf options icmp c.heap c.prefix2range itss css
unfolding new_iterator
new_iterator-AllScan sizeof_p_buf options icmp c css h =
    range_iterators-AllScan sizeof_p_buf options icmp c.heap c.prefix2range css h
