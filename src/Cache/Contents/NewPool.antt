-- ===== src/Cache/Contents/NewPool.antt =====
-- The cache over a new pool, and what is read behind any series of appends.
use rocksdb_pmdk.Base.{
  ok, ℕ, zero, suc, ◌%◌, ◌<◌, ◌≤◌, ◌^◌, ◌≡◌, ◌≢◌, refl, ◌∙◌, sym, true, false, Bool, none, some,
  List, [], ◌∷◌, All, Bytes, length, length-replicate, replicate, get_elem?, Run, ◌>>=◌, Returns,
  arith,
}
use rocksdb_pmdk.Cache.{WriteCache, get}
use rocksdb_pmdk.Cache.Contents.{Model, Keeps, answer, get-answer}
use rocksdb_pmdk.Cache.Contents.Steps.{IsAmple}
use rocksdb_pmdk.Cache.Contents.Series.{
  Request, note_all, AreServable, AreFresh, serve_all, serve_all-Keeps,
}
use rocksdb_pmdk.Cache.Open.{PersistentInfo, cache_over, set_up}
use rocksdb_pmdk.Cache.Ranges.{find}
use rocksdb_pmdk.Comparator.{Comparator}
use rocksdb_pmdk.HashMap.{init}
use rocksdb_pmdk.HashMap.Heap.{Ptr, null, Store, nil}
use rocksdb_pmdk.Memory.{Fixed64}
use rocksdb_pmdk.NvRangeTab.{NvRangeTab, Pool}
use rocksdb_pmdk.RangeTab.Get.Rounds.{Chunk}
use rocksdb_pmdk.RangeTab.Refine.{IsOpen}
use rocksdb_pmdk.RangeTab.State.{Options}

-- No prefix has a range.
abbrev pub no_ranges : Model
no_ranges = λ p. none

-- No node is in the pool.
abbrev pub no_nodes : Store NvRangeTab
no_nodes = λ a. none

get_elem?-replicate : (n i : ℕ) (x p : Ptr) → get_elem? (replicate n x) i ≡ some p → x ≡ p
get_elem?-replicate zero i x p e = absurd (cc)
get_elem?-replicate (suc n) zero x p e = cc
get_elem?-replicate (suc n) (suc i) x p e = get_elem?-replicate n i x p e

module _ ⦃fixed : Fixed64⦄ (options : Options) {F : Type 0} (in_compaction : Bool) (fuel : ℕ)
    (scale : ℕ → F → ℕ) (three_quarters : F) (tab_len data_space pmem_size : ℕ)
    (root : PersistentInfo F) where
  -- The constructor over a new pool, once it has the root object.
  abbrev pub opened : Run (WriteCache F × PersistentInfo F)
  opened =
      set_up options in_compaction fuel scale true three_quarters tab_len data_space pmem_size
        no_nodes root (some root)

-- The nodes get addresses that are not null and different from one another.
abbrev pub AreApart : List Request → Type 0
AreApart [] = Unit
AreApart (q ∷ qs) = (q.address ≢ null) × All (λ x. x.address ≢ q.address) qs × AreApart qs

module _ ⦃fixed : Fixed64⦄ (sizeof_p_buf : ℕ) (options : Options) (icmp : Comparator) {F : Type 0}
    (in_compaction : Bool) (fuel : ℕ) (scale : ℕ → F → ℕ) (three_quarters : F)
    (tab_len data_space pmem_size : ℕ) (root : PersistentInfo F) where
  abbrev pub start : Run (WriteCache F × PersistentInfo F)
  start = opened options in_compaction fuel scale three_quarters tab_len data_space pmem_size root

  opened-Keeps :
      root.inited ≡ false
      → 0 < tab_len
      → tab_len < 2 ^ 32
      → Returns start λ r.
        Keeps sizeof_p_buf options icmp 0 no_ranges r.0
        × (r.0.heap ≡ no_nodes)
        × (r.1.inited ≡ true)
  unfolding set_up cache_over init find
  opened-Keeps fresh pos small =
      let same : tab_len % 2 ^ 32 ≡ tab_len = omega arith in
      rw fresh (
        _,
        refl,
        (
          record {
            slots = λ p. refl;
            named = λ a node e. absurd (cc);
            numberless = λ a node e. absurd (cc);
            width = length-replicate tab_len null ∙ sym same;
            roomy = omega arith;
            distinct = tt;
            chains = λ i p e.
                let end = get_elem?-replicate tab_len i null p e in
                ([], rw (← end) nil, omega arith);
          },
          refl,
          refl,
        ),
      )

  AreApart-AreFresh :
      (c : WriteCache F) (qs : List Request)
      → c.heap ≡ no_nodes
      → AreApart qs
      → AreFresh sizeof_p_buf options icmp c qs
  AreApart-AreFresh c [] empty apart = tt
  AreApart-AreFresh c (q ∷ qs) empty (live, far, apart) =
      (live, rw empty refl, far, AreApart-AreFresh c qs empty apart)

  module _ (city_hash : Bytes → ℕ → ℕ → ℕ) (pool : Pool) (qs : List Request) where
    -- What the constructor and then the calls leave.
    pub record Served : Type 0 where
      pub made : WriteCache F × PersistentInfo F
      pub open_run : start ≡ ok made
      pub inited : made.1.inited ≡ true
      pub cache : WriteCache F
      pub run :
          serve_all sizeof_p_buf options icmp fuel city_hash pool in_compaction qs made.0 ≡ ok cache
      pub deepest : ℕ
      pub few : deepest ≤ length qs
      pub keeps : Keeps sizeof_p_buf options icmp deepest (note_all no_ranges qs) cache

    pub serve_all-Served :
        options.chunk_bloom_bits ≡ 8
        → IsAmple pool
        → root.inited ≡ false
        → 0 < tab_len
        → tab_len < 2 ^ 32
        → length qs ≤ fuel
        → AreServable sizeof_p_buf options icmp no_ranges qs
        → AreApart qs
        → Served
    serve_all-Served bits ample fresh pos small enough good apart =
        let (r, open_run, (v, empty, inited)) = opened-Keeps fresh pos small in
        let (c, run, (k, le, v')) =
          serve_all-Keeps sizeof_p_buf options icmp fuel city_hash pool in_compaction bits ample qs
            0 no_ranges r.0 v (omega arith) good (AreApart-AreFresh r.0 qs empty apart) in
        record {
          made = r;
          open_run = open_run;
          inited = inited;
          cache = c;
          run = run;
          deepest = k;
          few = omega (arith, le);
          keeps = v';
        }

  module _ (city_hash : Bytes → ℕ → ℕ → ℕ) (pool : Pool) (prefix_extractor : Bytes → Bytes) where
    -- The cache refines a map from prefixes to lists of chunks. Over a new pool that does not run
    -- out of memory, with a hash map of fewer than 2 ^ 32 buckets, and at least one, filters of
    -- eight bytes and fuel for as many nodes as there are calls, the constructor returns once it
    -- has the root object, and then any series of calls of `AppendToRange` with well-formed chunks,
    -- for which the buffers of their prefixes have room, where no prefix has a zero byte, and new
    -- nodes get the sequence number 0 and different addresses that are not null. `Get` then returns
    -- `NotFound` for a key whose prefix had no call, and otherwise the answer of the newest chunk
    -- of its prefix that has one, or throws `std::out_of_range` if none has, as long as every chunk
    -- of the prefix has its filter hold the key back or starts at or before it.
    pub get-serve_all :
        (qs : List Request) (key out : Bytes)
        → options.chunk_bloom_bits ≡ 8
        → IsAmple pool
        → root.inited ≡ false
        → 0 < tab_len
        → tab_len < 2 ^ 32
        → length qs ≤ fuel
        → AreServable sizeof_p_buf options icmp no_ranges qs
        → AreApart qs
        → ((cs : List Chunk)
            → note_all no_ranges qs (prefix_extractor key) ≡ some cs
            → All (IsOpen options icmp key) cs)
        → Returns
            (start >>= λ r.
              serve_all sizeof_p_buf options icmp fuel city_hash pool in_compaction qs r.0)
            λ c.
              get options sizeof_p_buf prefix_extractor icmp c key out
              ≡ answer sizeof_p_buf options icmp
                  (note_all no_ranges qs)
                  (prefix_extractor key)
                  key
                  out
    get-serve_all qs key out bits ample fresh pos small enough good apart readable =
        let s = serve_all-Served city_hash pool qs bits ample fresh pos small enough good apart in
        (
          s.cache,
          rw s.open_run s.run,
          get-answer sizeof_p_buf options icmp prefix_extractor s.deepest (note_all no_ranges qs)
              s.cache s.keeps key out readable,
        )
