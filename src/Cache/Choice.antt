-- ===== src/Cache/Choice.antt =====
-- Which range `MaybeNeedCompaction` hands to the compaction.
use rocksdb_pmdk.Allocator.{remain, capacity}
use rocksdb_pmdk.Base.{
  ◌*◌, ◌<◌, ◌≡◌, refl, ◌∙◌, true, false, Option, none, some, [], ◌∷◌, ◌++◌, Bytes, All, ltb,
  if◌then◌else◌, ok, arith,
}
use rocksdb_pmdk.Cache.{WriteCache, read_range, choose, maybe_need_compaction}
use rocksdb_pmdk.Cache.Ranges.{Range, RangeList}
use rocksdb_pmdk.HashMap.Heap.{Store}
use rocksdb_pmdk.Memory.{Fixed64}
use rocksdb_pmdk.NvRangeTab.{NvRangeTab}
use rocksdb_pmdk.RangeTab.{range_usage}
use rocksdb_pmdk.RangeTab.State.{FixedRangeTab, Usage}

module _ ⦃fixed : Fixed64⦄ (heap : Store NvRangeTab) where
  -- The range can be read, and `u` is its usage.
  pub record Has (range : Range) (u : Usage) : Type 0 where
    pub tab : FixedRangeTab
    pub readable : read_range heap range ≡ ok tab
    pub usage : range_usage tab ≡ ok u

  abbrev pub AreReadable : RangeList → Type 0
  AreReadable = All (λ r. (u : Usage) × Has r.1 u)

  abbrev pub AreEmpty : RangeList → Type 0
  AreEmpty = All (λ r. (u : Usage) × Has r.1 u × (u.range_size ≡ 0))

  choose-step :
      (prefix : Bytes) (range : Range) (rs : RangeList) (u : Usage)
      (pendding : Option Bytes × Usage)
      → Has range u
      → choose heap 0 ((prefix, range) ∷ rs) pendding
        ≡ choose heap 0 rs (if ltb 0 u.range_size then (some prefix, u) else pendding)
  unfolding choose
  choose-step prefix range rs u pendding h = rw (h.readable, h.usage) refl

  choose-AreEmpty :
      (rs : RangeList) (pendding : Option Bytes × Usage)
      → AreEmpty rs
      → choose heap 0 rs pendding ≡ ok pendding
  choose-AreEmpty [] pendding es = unfold choose in refl
  choose-AreEmpty ((prefix, range) ∷ rs) pendding ((u, h, empty), es) =
      let small : ltb 0 u.range_size ≡ false = ground arith in
      choose-step prefix range rs u pendding h ∙ rw small (choose-AreEmpty rs pendding es)

  choose-last :
      (before after : RangeList) (prefix : Bytes) (range : Range) (u : Usage)
      (pendding : Option Bytes × Usage)
      → AreReadable before
      → Has range u
      → 0 < u.range_size
      → AreEmpty after
      → choose heap 0 (before ++ (prefix, range) ∷ after) pendding ≡ ok (some prefix, u)
  choose-last [] after prefix range u pendding bs h some_bytes es =
      let large : ltb 0 u.range_size ≡ true = ground arith in
      choose-step prefix range after u pendding h
      ∙ rw large (choose-AreEmpty after (some prefix, u) es)
  choose-last ((p, r) ∷ before) after prefix range u pendding ((v, k), bs) h some_bytes es =
      choose-step p r (before ++ (prefix, range) ∷ after) v pendding k
      ∙ choose-last before after prefix range u _ bs h some_bytes es

-- `c` with one more item in its queue.
abbrev pub queued : {F : Type 0} → WriteCache F → Option Bytes → Usage → WriteCache F
queued c range u = record c {
  range_queue =
      c.range_queue
      ++ record {
        pending_compated_range = range;
        start_key = u.start;
        end_key = u.end;
        range_size = u.range_size;
        chunk_num = u.chunk_num;
      }
        ∷ [];
}

module _ {F : Type 0} ⦃fixed : Fixed64⦄ (blank : Usage) (c : WriteCache F)
    (scarce : 4 * remain c.allocator < 3 * capacity c.allocator) where
  queued_lem :
      (range : Option Bytes) (u : Usage)
      → choose c.heap 0 c.prefix2range (none, blank) ≡ ok (range, u)
      → maybe_need_compaction blank c ≡ ok (queued c range u)
  unfolding maybe_need_compaction
  queued_lem range u e =
      let less : ltb (4 * remain c.allocator) (3 * capacity c.allocator) ≡ true = ground arith in
      rw (less, e) refl

  -- With less than three quarters of the capacity left and every range readable, the range that is
  -- queued for compaction is the last one of the iteration that has any bytes, whatever the sizes
  -- of the ranges before it are.
  pub maybe_need_compaction-last :
      (before after : RangeList) (prefix : Bytes) (range : Range) (u : Usage)
      → c.prefix2range ≡ before ++ (prefix, range) ∷ after
      → AreReadable c.heap before
      → Has c.heap range u
      → 0 < u.range_size
      → AreEmpty c.heap after
      → maybe_need_compaction blank c ≡ ok (queued c (some prefix) u)
  maybe_need_compaction-last before after prefix range u e bs h some_bytes es =
      queued_lem (some prefix) u
        (rw e (choose-last c.heap before after prefix range u (none, blank) bs h some_bytes es))

  -- With less than three quarters of the capacity left and no byte in any range, a null pointer is
  -- queued for compaction, with a usage that was never set.
  maybe_need_compaction-null :
      AreEmpty c.heap c.prefix2range → maybe_need_compaction blank c ≡ ok (queued c none blank)
  maybe_need_compaction-null es =
      queued_lem none blank (choose-AreEmpty c.heap c.prefix2range (none, blank) es)
