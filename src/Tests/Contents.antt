-- ===== src/Tests/Contents.antt =====
-- A new cache, three appends to two prefixes, and what follows them.
use rocksdb_pmdk.Base.{
  ℕ, ◌≡◌, refl, false, Option, some, List, [], ◌∷◌, Bytes, take, inr, All, ◌>>=◌, Returns, arith,
}
use rocksdb_pmdk.Allocator.{remain, capacity}
use rocksdb_pmdk.Cache
use rocksdb_pmdk.Cache.{maybe_need_compaction, need_compaction}
use rocksdb_pmdk.Cache.Contents.{answer}
use rocksdb_pmdk.Cache.Contents.Idle.{maybe_need_compaction-serve_all}
use rocksdb_pmdk.Cache.Contents.Listing.{AreListed, with_scan, new_iterator-serve_all}
use rocksdb_pmdk.Cache.Contents.Losses.{restarted, lost, get-restarted}
use rocksdb_pmdk.Cache.Contents.NewPool.{AreApart, no_ranges, opened, get-serve_all}
use rocksdb_pmdk.Cache.Contents.Series.{Request, note_all, AreServable, serve_all}
use rocksdb_pmdk.Cache.Open.{PersistentInfo}
use rocksdb_pmdk.Memory.{Buffer}
use rocksdb_pmdk.NvRangeTab.{Pool}
use rocksdb_pmdk.RangeTab.Get.Rounds.{Chunk}
use rocksdb_pmdk.RangeTab.Refine.{IsOpen}
use rocksdb_pmdk.RangeTab.State.{Usage}
use rocksdb_pmdk.Tests.Fixtures.{little_endian, le_bytes, lex, bytewise}
use rocksdb_pmdk.Tests.Ranges.{open_filter, two_chunk, two-IsChunk}

endless-size :
    (n : ℕ) (b : Buffer)
    → ◌≡◌ {A = Option Buffer} (some (record { cells = λ a. 0; size = n })) (some b)
    → b.size ≡ n
endless-size n b e = cc

-- Every allocation succeeds.
abbrev endless : Pool
endless = record {
  allocate = λ n. some (record { cells = λ a. 0; size = n });
  allocate-size = endless-size;
}

abbrev new_root : PersistentInfo Unit
new_root = record {
  inited = false;
  allocated_bits = 0;
  range_map = record { tab_len = 0; tab = []; load_factor = tt; threshold = 0; size = 0 };
  allocator = record { raw = 0; total_size = 0; cur = 0 };
}

abbrev request : Bytes → ℕ → Request
request prefix address = record {
  prefix = prefix;
  chunk = two_chunk;
  start = [];
  end = [];
  address = address;
}

abbrev three_calls : List Request
three_calls = request (20 ∷ []) 8 ∷ request (30 ∷ []) 9 ∷ request (20 ∷ []) 10 ∷ []

three-AreServable : AreServable 16 open_filter bytewise no_ranges three_calls
unfolding le_bytes
three-AreServable = (
  record { text = refl; chunk = two-IsChunk; filter = refl; fits = omega arith },
  (
    record { text = refl; chunk = two-IsChunk; filter = refl; fits = omega arith },
    (record { text = refl; chunk = two-IsChunk; filter = refl; fits = omega arith }, tt),
  ),
)

abbrev first_byte : Bytes → Bytes
first_byte key = take 1 key

readable :
    (cs : List Chunk)
    → note_all no_ranges three_calls (20 ∷ []) ≡ some cs
    → All (IsOpen open_filter bytewise (20 ∷ 5 ∷ [])) cs
unfolding lex
readable cs e =
    let same : two_chunk ∷ two_chunk ∷ [] ≡ cs = cc in
    rw (← same) (inr (λ h. cc), (inr (λ h. cc), tt))

three-AreApart : AreApart three_calls
three-AreApart = (
  (λ e. ground arith),
  ((λ e. ground arith), ((λ e. ground arith), tt)),
  ((λ e. ground arith), ((λ e. ground arith), tt), ((λ e. ground arith), tt, tt)),
)

get-serve_all_example :
    Returns
      (opened open_filter false 3 (λ n f. n) tt 2 0 100 new_root >>= λ r.
        serve_all 16 open_filter bytewise 3 (λ xs n seed. n) endless false three_calls r.0)
      λ c.
        Cache.get open_filter 16 first_byte bytewise c (20 ∷ 5 ∷ []) []
        ≡ answer 16 open_filter bytewise (note_all no_ranges three_calls) (20 ∷ []) (20 ∷ 5 ∷ []) []
get-serve_all_example =
    get-serve_all 16 open_filter bytewise false 3 (λ n f. n) tt 2 0 100 new_root (λ xs n seed. n)
      endless first_byte three_calls (20 ∷ 5 ∷ []) [] refl (λ n. (_, refl)) refl (omega arith)
      (omega arith) (omega arith) three-AreServable three-AreApart readable

get-restarted_example :
    Returns
      (opened open_filter false 4 (λ n f. n) tt 2 0 100 new_root >>= λ r.
        serve_all 16 open_filter bytewise 4 (λ xs n seed. n) endless false three_calls r.0 >>= λ c.
        restarted open_filter false 4 (λ n f. n) tt 2 0 100 r.1 c)
      λ r.
        Cache.get open_filter 16 first_byte bytewise r.0 (20 ∷ 5 ∷ []) []
        ≡ lost (note_all no_ranges three_calls (20 ∷ [])) []
get-restarted_example =
    get-restarted 16 open_filter bytewise first_byte false 4 (λ n f. n) tt 2 0 100 new_root
      (λ xs n seed. n) endless three_calls (20 ∷ 5 ∷ []) [] refl (λ n. (_, refl)) refl (omega arith)
      (omega arith) (omega arith) three-AreServable three-AreApart

new_iterator-serve_all_example :
    Returns
      (opened open_filter false 3 (λ n f. n) tt 2 0 100 new_root >>= λ r.
        serve_all 16 open_filter bytewise 3 (λ xs n seed. n) endless false three_calls r.0
        >>= with_scan 16 open_filter bytewise)
      λ r. AreListed 16 open_filter bytewise (note_all no_ranges three_calls) r.0 r.1
new_iterator-serve_all_example =
    new_iterator-serve_all 16 open_filter bytewise false 3 (λ n f. n) tt 2 0 100 new_root
      (λ xs n seed. n) endless three_calls refl (λ n. (_, refl)) refl (omega arith) (omega arith)
      (omega arith) three-AreServable three-AreApart

-- A stand-in for what an unset `Usage` holds.
abbrev unset : Usage
unset = record { chunk_num = 7; range_size = 7; start = []; end = [] }

maybe_need_compaction-serve_all_example :
    Returns
      (opened open_filter false 3 (λ n f. n) tt 2 0 100 new_root >>= λ r.
        serve_all 16 open_filter bytewise 3 (λ xs n seed. n) endless false three_calls r.0
        >>= maybe_need_compaction unset)
      λ c. (need_compaction c ≡ false) × (remain c.allocator ≡ capacity c.allocator)
maybe_need_compaction-serve_all_example =
    maybe_need_compaction-serve_all 16 open_filter bytewise 3 (λ xs n seed. n) endless false
      (λ n f. n) tt 2 0 100 new_root three_calls unset refl (λ n. (_, refl)) refl (omega arith)
      (omega arith) (omega arith) (omega arith) three-AreServable three-AreApart
