-- ===== src/Tests/Ranges.antt =====
-- Ranges: append, rebuild, read, and the key range.
use rocksdb_pmdk.Base.{
  ℕ, zero, suc, ◌≡◌, refl, ◌≤◌, ◌≢◌, true, false, none, some, List, [], ◌∷◌, Bytes, get_elem?, inr,
  ok, fault, out_of_range, out_of_bounds, Returns, arith,
}
use rocksdb_pmdk.ChunkBlk.{ChunkBlk}
use rocksdb_pmdk.Memory.{Buffer, Holds-write_self, write, read, load, load64, store, store64}
use rocksdb_pmdk.NvRangeTab.{NvRangeTab}
use rocksdb_pmdk.NvRangeTab.KeyRange.{encode_range, get_real_range, get_real_range-encode_range}
use rocksdb_pmdk.RangeTab.{check_and_update_key_range, append_block, append, rebuild_blk_list, get}
use rocksdb_pmdk.RangeTab.Append.{append-IsStored, append_block-ok, appended, CanUpdate}
use rocksdb_pmdk.RangeTab.Blocks.{Block, blocks_at, image, IsStored}
use rocksdb_pmdk.RangeTab.Cycle.{rebuild-append, get-append}
use rocksdb_pmdk.RangeTab.Edge.{append_block-overruns, rebuild-append-ne, append-key_range}
use rocksdb_pmdk.RangeTab.Get.{IsRange, get-newest, get-absent}
use rocksdb_pmdk.RangeTab.Get.Rounds.{Chunk, block_of, IsChunk, Passes}
use rocksdb_pmdk.RangeTab.Rebuild.{rebuild_blk_list-blocks_at}
use rocksdb_pmdk.RangeTab.Search.{ok_status}
use rocksdb_pmdk.RangeTab.State.{Options, FixedRangeTab, in_buf}
use rocksdb_pmdk.Tests.Chunks.{two_pairs, two_gap, two_bytes, two_sorted}
use rocksdb_pmdk.Tests.Fixtures.{little_endian, le_bytes, le_value, lex, bytewise, kilobyte}

-- A filter that lets every key through.
abbrev pub open_filter : Options
open_filter = record { chunk_bloom_bits = 8; key_may_match = λ k b. true }

abbrev pub eight : Bytes
eight = 1 ∷ 2 ∷ 3 ∷ 4 ∷ 5 ∷ 6 ∷ 7 ∷ 8 ∷ []

abbrev pub two_chunk : Chunk
two_chunk = record { bloom = eight; pairs = two_pairs; gap = two_gap }

abbrev pub two_block : Block
two_block = block_of two_chunk

-- A table with a buffer of 300 bytes, of which `len` are used.
abbrev pub table : (ℕ → ℕ) → ℕ → NvRangeTab
table m len = record {
  hash_ = 0;
  prefix_len = 0;
  prefix = record { cells = λ a. 0; size = 0 };
  key_range = none;
  chunk_num = 0;
  seq_num = 1;
  buf_size = 300;
  buf = record { cells = m; size = 300 };
  data_len = len;
  extra_buf = 0;
}

abbrev pub range_of : NvRangeTab → List ChunkBlk → FixedRangeTab
range_of nv blks = record {
  nv = nv;
  blklist = blks;
  raw = in_buf 16;
  in_compaction = false;
  pendding_clean = 0;
}

-- One chunk behind the two words.
abbrev pub one_table : NvRangeTab
one_table = table (write (λ a. 0) 16 (image (two_block ∷ []))) 109

abbrev pub one : FixedRangeTab
one = range_of one_table (blocks_at 8 16 (two_block ∷ []))

pub one-IsStored : IsStored 8 one_table 16 (two_block ∷ [])
unfolding le_bytes
one-IsStored = record {
  filters = (refl, tt);
  holds = Holds-write_self (λ a. 0) 16 (image (two_block ∷ []));
  ends = refl;
  fits = omega arith;
  small = omega arith;
}

abbrev room : Buffer
room = record { cells = λ a. 0; size = 19 }

pub two-IsChunk : IsChunk 16 bytewise two_chunk
two-IsChunk = record { sorted = two_sorted; few = omega arith; placed = refl }

one-chunks : (i : ℕ) (c : Chunk) → get_elem? (two_chunk ∷ []) i ≡ some c → IsChunk 16 bytewise c
one-chunks zero c e = let same : two_chunk ≡ c = cc in rw (← same) two-IsChunk
one-chunks (suc i) c e = absurd (cc)

pub one-IsRange : (target : Bytes) → IsRange 16 open_filter bytewise one target 16 (two_chunk ∷ [])
one-IsRange target = record { stored = one-IsStored; listed = refl; chunks = one-chunks }

no_later :
    (i : ℕ) (c : Chunk)
    → 1 ≤ i
    → get_elem? (two_chunk ∷ []) i ≡ some c
    → Passes open_filter bytewise (10 ∷ []) c
no_later zero c le e = absurd (omega arith)
no_later (suc i) c le e = absurd (cc)

absent :
    (i : ℕ) (c : Chunk)
    → 0 ≤ i
    → get_elem? (two_chunk ∷ []) i ≡ some c
    → Passes open_filter bytewise (15 ∷ []) c
unfolding lex
absent zero c le e = let same : two_chunk ≡ c = cc in rw (← same) (inr (refl, (λ h. cc), refl))
absent (suc i) c le e = absurd (cc)

get-newest_example : get 16 open_filter bytewise one (10 ∷ []) [] ≡ ok (ok_status, 1 ∷ 2 ∷ [])
unfolding lex
get-newest_example =
    get-newest 16 open_filter bytewise one (10 ∷ []) 16 (two_chunk ∷ []) (one-IsRange (10 ∷ [])) 0
      two_chunk (1 ∷ 2 ∷ []) [] refl (refl, (cc), refl) (λ i c le e. no_later i c le e)

get-absent_example : get 16 open_filter bytewise one (15 ∷ []) [] ≡ fault out_of_range
unfolding lex
get-absent_example =
    get-absent 16 open_filter bytewise one (15 ∷ []) 16 (two_chunk ∷ []) (one-IsRange (15 ∷ [])) []
      absent

rebuild_blk_list-blocks_at_example : rebuild_blk_list open_filter (range_of one_table []) ≡ ok one
rebuild_blk_list-blocks_at_example =
    rebuild_blk_list-blocks_at open_filter (range_of one_table []) (two_block ∷ []) one-IsStored

-- A chunk whose keys widen the range takes a new array.
pub one-CanUpdate : CanUpdate bytewise kilobyte one_table (10 ∷ []) (20 ∷ 5 ∷ [])
unfolding check_and_update_key_range encode_range get_real_range le_bytes lex store64 store
one-CanUpdate = (_, refl)

append-IsStored_example :
    Returns (append open_filter bytewise kilobyte one eight two_bytes (10 ∷ []) (20 ∷ 5 ∷ [])) λ r.
      IsStored 8 r.nv 16 (two_block ∷ two_block ∷ [])
      × (r.blklist ≡ blocks_at 8 16 (two_block ∷ two_block ∷ []))
unfolding le_bytes
append-IsStored_example =
    append-IsStored bytewise kilobyte open_filter one 16 (two_block ∷ []) two_block (10 ∷ [])
      (20 ∷ 5 ∷ []) refl one-IsStored refl refl (omega arith) one-CanUpdate

rebuild-append_example :
    Returns
      (append open_filter bytewise kilobyte one eight two_bytes (10 ∷ []) (20 ∷ 5 ∷ []))
      λ r. rebuild_blk_list open_filter (record r { blklist = [] }) ≡ ok r
unfolding le_bytes
rebuild-append_example =
    rebuild-append open_filter one refl bytewise kilobyte (two_block ∷ []) two_block (10 ∷ [])
      (20 ∷ 5 ∷ []) one-IsStored refl refl (omega arith) one-CanUpdate

get-append_example :
    Returns
      (append open_filter bytewise kilobyte one eight two_bytes (10 ∷ []) (20 ∷ 5 ∷ []))
      λ r. get 16 open_filter bytewise r (20 ∷ 5 ∷ []) [] ≡ ok (ok_status, [])
unfolding le_bytes lex
get-append_example =
    get-append open_filter one refl 16 bytewise (20 ∷ 5 ∷ []) kilobyte 16 (two_chunk ∷ []) two_chunk
      [] [] (10 ∷ []) (20 ∷ 5 ∷ []) (one-IsRange (20 ∷ 5 ∷ [])) two-IsChunk refl (omega arith)
      (refl, (cc), refl) one-CanUpdate

get_real_range-encode_range_example :
    Returns
      (encode_range kilobyte (5 ∷ []) (7 ∷ 8 ∷ []))
      λ r. get_real_range (some r) ≡ ok (5 ∷ [], 7 ∷ 8 ∷ [])
get_real_range-encode_range_example =
    get_real_range-encode_range kilobyte (5 ∷ []) (7 ∷ 8 ∷ []) room refl (omega arith)

append_block-overruns_example :
    append_block open_filter (range_of (table (λ a. 0) 290) []) eight [] ≡ fault out_of_bounds
append_block-overruns_example =
    append_block-overruns open_filter (range_of (table (λ a. 0) 290) []) eight [] refl (omega arith)

-- A new table, whose first block is written over the two words.
abbrev fresh : FixedRangeTab
fresh = range_of (table (λ a. 0) 0) []

abbrev fresh_appended : FixedRangeTab
fresh_appended = appended open_filter fresh two_block

abbrev fresh_rebuilt : FixedRangeTab
fresh_rebuilt = record fresh_appended {
  blklist = record { bloom_bits = 8; offset = 16; chunk_len = 522 } ∷ [];
}

fresh_appends : append_block open_filter fresh eight two_bytes ≡ ok fresh_appended
unfolding le_bytes
fresh_appends = append_block-ok open_filter fresh two_block refl (omega arith)

fresh_rebuilds :
    rebuild_blk_list open_filter (record fresh_appended { blklist = [] }) ≡ ok fresh_rebuilt
unfolding rebuild_blk_list le_bytes le_value load64 load read write
fresh_rebuilds = refl

rebuild-append-ne_example : fresh_rebuilt.blklist ≢ fresh_appended.blklist
rebuild-append-ne_example =
    rebuild-append-ne open_filter fresh eight two_bytes fresh_appended fresh_rebuilt refl refl
      fresh_appends fresh_rebuilds

abbrev one_appended : FixedRangeTab
one_appended = appended open_filter one two_block

one_appends :
    append open_filter bytewise kilobyte one eight two_bytes (10 ∷ []) (20 ∷ 5 ∷ [])
    ≡ ok one_appended
unfolding append check_and_update_key_range get_real_range encode_range store64 store lex le_bytes
one_appends = rw (append_block-ok open_filter one two_block refl (omega arith))

append-key_range_example :
    (one_appended.nv.key_range ≡ none)
    × (one_appended.nv.chunk_num ≡ 0)
    × (one_appended.nv.seq_num ≡ 1)
append-key_range_example =
    append-key_range open_filter one bytewise kilobyte eight two_bytes (10 ∷ []) (20 ∷ 5 ∷ [])
      one_appended one_appends
