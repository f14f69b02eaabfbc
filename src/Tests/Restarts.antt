-- ===== src/Tests/Restarts.antt =====
-- A restart of a cache with one range.
use mathlib.Core.List.{flatten}
use rocksdb_pmdk.Base.{
  ℕ, ◌≡◌, ◌<◌, refl, ◌==◌, true, false, none, some, inr, [], ◌∷◌, Bytes, take, length,
  if◌then◌else◌, fault, out_of_range, Returns, arith,
}
use rocksdb_pmdk.Cache
use rocksdb_pmdk.Cache.{WriteCache}
use rocksdb_pmdk.Cache.Open.{PersistentInfo, set_up, close}
use rocksdb_pmdk.Cache.Ranges.{find}
use rocksdb_pmdk.Cache.Restart.{Entry, AreLinked, IsEntry}
use rocksdb_pmdk.Cache.Survival.{restart-get}
use rocksdb_pmdk.HashMap.{PmemHashMap}
use rocksdb_pmdk.HashMap.Heap.{Store}
use rocksdb_pmdk.Memory.{load, read}
use rocksdb_pmdk.NvRangeTab.{NvRangeTab, new_tab}
use rocksdb_pmdk.NvRangeTab.Fresh.{IsNew, new_tab-IsNew}
use rocksdb_pmdk.RangeTab.{get}
use rocksdb_pmdk.RangeTab.Refine.{Piece, append_all, get-append_all}
use rocksdb_pmdk.Tests.Fixtures.{little_endian, le_bytes, lex, bytewise, kilobyte}
use rocksdb_pmdk.Tests.Ranges.{
  open_filter, one, one_table, one-CanUpdate, one-IsStored, one-IsRange, two_chunk, two_block,
  two-IsChunk,
}

-- Keys that widen the range, and so take a new array.
abbrev wide : Piece
wide = record { chunk = two_chunk; start = 10 ∷ []; end = 20 ∷ 5 ∷ [] }

get-append_all_example :
    Returns
      (append_all open_filter bytewise kilobyte (wide ∷ []) one)
      λ r. get 16 open_filter bytewise r (15 ∷ []) [] ≡ fault out_of_range
unfolding le_bytes lex
get-append_all_example =
    get-append_all 16 open_filter bytewise (15 ∷ []) kilobyte (wide ∷ []) one 16 (two_chunk ∷ []) []
      refl (one-IsRange (15 ∷ [])) (inr (λ h. cc), tt)
      (record { well = two-IsChunk; filter = refl; starts = inr (λ h. cc) }, tt) (omega arith)
      (one-CanUpdate, tt)

-- A stand-in for the hash function.
abbrev zero_hash : Bytes → ℕ → ℕ → ℕ
zero_hash xs n seed = n

new_tab-IsNew_example :
    Returns (new_tab zero_hash kilobyte (65 ∷ 66 ∷ []) 300) (IsNew zero_hash (65 ∷ 66 ∷ []) 300)
new_tab-IsNew_example =
    new_tab-IsNew zero_hash (65 ∷ 66 ∷ []) kilobyte 300 (record { cells = λ a. 0; size = 2 })
      (record { cells = λ a. 0; size = 300 }) refl refl

-- The table of the prefix 20, at the address 8.
abbrev named_table : NvRangeTab
named_table = record one_table { prefix_len = 1; prefix = record { cells = λ a. 20; size = 2 } }

abbrev the_node : Store NvRangeTab
the_node p = if p == 8 then some (record { next = 0; p_content = named_table }) else none

abbrev the_map : PmemHashMap Unit
the_map = record { tab_len = 2; tab = 8 ∷ 0 ∷ []; load_factor = tt; threshold = 1; size = 0 }

abbrev the_cache : WriteCache Unit
the_cache = record {
  heap = the_node;
  range_map = the_map;
  allocator = record { raw = 0; total_size = 100; cur = 50 };
  prefix2range = (20 ∷ [], record { node = 8; tab = one }) ∷ [];
  range_queue = [];
}

abbrev the_entry : Entry
the_entry = record { prefix = 20 ∷ []; node = 8; nv = named_table; blocks = two_block ∷ [] }

the_entry-IsEntry : IsEntry open_filter false the_entry
unfolding load read le_bytes
the_entry-IsEntry = record {
  numbered = λ e. ground arith;
  stored = record {
    filters = one-IsStored.filters;
    holds = one-IsStored.holds;
    ends = one-IsStored.ends;
    fits = one-IsStored.fits;
    small = one-IsStored.small;
  };
  text = refl;
}

linked : AreLinked open_filter false the_node (8 ∷ 0 ∷ []) ((the_entry ∷ []) ∷ [] ∷ [])
linked = (((λ e. ground arith), refl, the_entry-IsEntry, (0, refl, refl)), (refl, tt))

abbrev root : PersistentInfo Unit
root = record {
  inited = true;
  allocated_bits = 0;
  range_map = the_map;
  allocator = record { raw = 0; total_size = 100; cur = 50 };
}

abbrev first_byte : Bytes → Bytes
first_byte key = take 1 key

one_fits : length (flatten ((the_entry ∷ []) ∷ [] ∷ [])) < 2
unfolding flatten
one_fits = omega arith

restart-get_example :
    let pool = close root the_cache in
    Returns (set_up open_filter false 2 (λ n f. n) true tt 2 0 100 pool.0 pool.1 (some pool.1)) λ r.
      Cache.get open_filter 16 first_byte bytewise r.0 (20 ∷ 5 ∷ []) []
      ≡ Cache.get open_filter 16 first_byte bytewise the_cache (20 ∷ 5 ∷ []) []
unfolding flatten find
restart-get_example =
    restart-get 16 open_filter first_byte bytewise false 2 (λ n f. n) true tt 2 0 100 root the_cache
      ((the_entry ∷ []) ∷ [] ∷ []) 0 the_entry (record { node = 8; tab = one }) (20 ∷ 5 ∷ []) []
      refl refl linked (tt, tt) one_fits refl refl refl refl refl
