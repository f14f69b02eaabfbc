-- ===== src/Tests/Caches.antt =====
-- The cache: two ranges with their nodes.
use rocksdb_pmdk.Allocator.{remain, capacity}
use rocksdb_pmdk.Base.{
  ◌≡◌, ◌≢◌, refl, ◌==◌, false, none, some, [], ◌∷◌, Bytes, take, if◌then◌else◌, ok, Returns, arith,
}
use rocksdb_pmdk.Cache
use rocksdb_pmdk.Cache.{WriteCache, read_range, maybe_need_compaction, append_to_range}
use rocksdb_pmdk.Cache.Choice.{Has, queued, maybe_need_compaction-last}
use rocksdb_pmdk.Cache.Open.{new_iterator}
use rocksdb_pmdk.Cache.Ranges.{Range, RangeList, find}
use rocksdb_pmdk.Cache.Routing.{get-append_to_range, get-append_to_range_other}
use rocksdb_pmdk.Cache.Scan.{AllHold, AllScan, new_iterator-AllScan}
use rocksdb_pmdk.HashMap.Heap.{Node, Store, deref}
use rocksdb_pmdk.NvRangeTab.{NvRangeTab}
use rocksdb_pmdk.NvRangeTab.KeyRange.{get_real_range}
use rocksdb_pmdk.RangeTab.{check_and_update_key_range, range_usage}
use rocksdb_pmdk.RangeTab.Search.{ok_status}
use rocksdb_pmdk.RangeTab.State.{Usage}
use rocksdb_pmdk.Tests.Chunks.{two_bytes}
use rocksdb_pmdk.Tests.Fixtures.{little_endian, le_bytes, lex, bytewise, kilobyte}
use rocksdb_pmdk.Tests.Ranges.{
  open_filter, eight, table, range_of, one, one_table, one-IsRange, two_chunk, two-IsChunk,
}

abbrev node_of : NvRangeTab → Node NvRangeTab
node_of nv = record { next = 0; p_content = nv }

-- A table with one chunk at the address 8, an empty one at the address 9.
abbrev two_nodes : Store NvRangeTab
two_nodes p =
    if p == 8
    then some (node_of one_table)
    else if p == 9
    then some (node_of (table (λ a. 0) 0))
    else none

abbrev full_range : Range
full_range = record { node = 8; tab = one }

abbrev empty_range : Range
empty_range = record { node = 9; tab = range_of (table (λ a. 0) 0) [] }

abbrev cache_of : RangeList → WriteCache Unit
cache_of ranges = record {
  heap = two_nodes;
  range_map = record { tab_len = 1; tab = 8 ∷ []; load_factor = tt; threshold = 1; size = 0 };
  allocator = record { raw = 0; total_size = 100; cur = 50 };
  prefix2range = ranges;
  range_queue = [];
}

abbrev two_ranges : WriteCache Unit
two_ranges = cache_of ((20 ∷ [], full_range) ∷ (30 ∷ [], empty_range) ∷ [])

abbrev first_byte : Bytes → Bytes
first_byte key = take 1 key

two_finds : find (20 ∷ []) two_ranges.prefix2range ≡ some full_range
unfolding find
two_finds = refl

no_update : check_and_update_key_range bytewise kilobyte one_table (10 ∷ []) [] ≡ ok none
unfolding check_and_update_key_range get_real_range lex
no_update = refl

get-append_to_range_example :
    Returns
      (append_to_range open_filter 1
        (λ k n seed. 0)
        kilobyte
        1
        false
        bytewise
        none
        two_ranges
        (20 ∷ [])
        eight
        two_bytes
        (10 ∷ [])
        [])
      λ c. Cache.get open_filter 16 first_byte bytewise c (20 ∷ 5 ∷ []) [] ≡ ok (ok_status, [])
unfolding le_bytes lex
get-append_to_range_example =
    get-append_to_range open_filter bytewise kilobyte 1 (λ k n seed. 0) 1 false none two_ranges
      (20 ∷ []) full_range (node_of one_table) two_finds refl 16 first_byte refl 16 (two_chunk ∷ [])
      two_chunk (20 ∷ 5 ∷ []) [] [] (10 ∷ []) [] none refl (one-IsRange (20 ∷ 5 ∷ [])) two-IsChunk
      refl (omega arith) (refl, (cc), refl) no_update

abbrev blank : Usage
blank = record { chunk_num = 0; range_size = 0; start = []; end = [] }

abbrev full_usage : Usage
full_usage = record { chunk_num = 0; range_size = 109; start = []; end = [] }

full_range-Has : Has two_nodes full_range full_usage
unfolding read_range deref range_usage get_real_range
full_range-Has = record { tab = one; readable = refl; usage = refl }

empty_range-Has : Has two_nodes empty_range blank
unfolding read_range deref range_usage get_real_range
empty_range-Has = record { tab = range_of (table (λ a. 0) 0) []; readable = refl; usage = refl }

-- The range of 109 bytes is the last one with any.
maybe_need_compaction-last_example :
    maybe_need_compaction blank two_ranges ≡ ok (queued two_ranges (some (20 ∷ [])) full_usage)
unfolding remain capacity
maybe_need_compaction-last_example =
    maybe_need_compaction-last blank two_ranges (omega arith) [] ((30 ∷ [], empty_range) ∷ [])
      (20 ∷ []) full_range full_usage refl tt full_range-Has (omega arith)
      ((blank, empty_range-Has, refl), tt)

after_append :
    Returns
      (append_to_range open_filter 1
        (λ k n seed. 0)
        kilobyte
        1
        false
        bytewise
        none
        two_ranges
        (20 ∷ [])
        eight
        two_bytes
        (10 ∷ [])
        [])
      λ c. Cache.get open_filter 16 first_byte bytewise c (20 ∷ 5 ∷ []) [] ≡ ok (ok_status, [])
unfolding le_bytes lex
after_append =
    get-append_to_range open_filter bytewise kilobyte 1 (λ k n seed. 0) 1 false none two_ranges
      (20 ∷ []) full_range (node_of one_table) two_finds refl 16 first_byte refl 16 (two_chunk ∷ [])
      two_chunk (20 ∷ 5 ∷ []) [] [] (10 ∷ []) [] none refl (one-IsRange (20 ∷ 5 ∷ [])) two-IsChunk
      refl (omega arith) (refl, (cc), refl) no_update

other_node : (other : Range) → find (30 ∷ []) two_ranges.prefix2range ≡ some other → other.node ≢ 8
unfolding find
other_node other e = ground arith

get-append_to_range_other_example :
    Cache.get open_filter 16 first_byte bytewise after_append.0 (30 ∷ 1 ∷ []) []
    ≡ Cache.get open_filter 16 first_byte bytewise two_ranges (30 ∷ 1 ∷ []) []
get-append_to_range_other_example =
    get-append_to_range_other open_filter bytewise kilobyte 1 (λ k n seed. 0) 1 false none
      two_ranges (20 ∷ []) full_range (node_of one_table) two_finds refl 16 first_byte eight
      two_bytes (10 ∷ []) [] (30 ∷ 1 ∷ []) [] after_append.0 (λ e. ground arith) other_node
      after_append.1

one_range-AllHold :
    AllHold 16 open_filter bytewise two_nodes ((20 ∷ [], full_range) ∷ []) ((two_chunk ∷ []) ∷ [])
one_range-AllHold = (
  record { node = node_of one_table; at = refl; base = 16; target = []; chunks = one-IsRange [] },
  tt,
)

new_iterator-AllScan_example :
    Returns (new_iterator 16 open_filter (cache_of ((20 ∷ [], full_range) ∷ []))) λ itss.
      AllScan 16 open_filter bytewise two_nodes
        ((20 ∷ [], full_range) ∷ [])
        itss
        ((two_chunk ∷ []) ∷ [])
new_iterator-AllScan_example =
    new_iterator-AllScan 16 open_filter bytewise (cache_of ((20 ∷ [], full_range) ∷ []))
      ((two_chunk ∷ []) ∷ []) one_range-AllHold
