-- ===== src/RangeTab.antt =====
-- fixed_range_tab.h and fixed_range_tab.cc: one range of the write cache, a persistent table and the
-- volatile list of the chunk blocks in its buffer. The sources name the table both `pmap_node_` and
-- `nonVolatileTab_`, the block list both `chunk_offset_` and `blklist`; each pair is one field here.
pub mod State
pub mod Search
pub mod Blocks
pub mod Append
pub mod Rebuild
pub mod Get
pub mod Edge
pub mod Cycle
pub mod Refine
pub mod Scan
use rocksdb_pmdk.Base.{
  ℕ, zero, suc, ◌+◌, ◌*◌, Bool, true, false, ◌||◌, Option, none, some, List, [], ◌∷◌, ◌++◌, Bytes,
  length, get_elem?, take, ltb, leb, ◌==◌, if◌then◌else◌, Ordering, Run, ok, fault, out_of_range,
  out_of_bounds, null_pointer, out_of_fuel, of_option, guard, ◌>>=◌, ◌>>◌,
}
use rocksdb_pmdk.Base.Words.{add64, sub64}
use rocksdb_pmdk.Chunk.{PersistentChunk, new_iterator}
use rocksdb_pmdk.Chunk.Iterator.{PersistentChunkIterator, open_chunk}
use rocksdb_pmdk.ChunkBlk.{ChunkBlk, get_dat_offset}
use rocksdb_pmdk.Comparator.{Comparator}
use rocksdb_pmdk.Memory.{Buffer, Fixed64, load, store, load64, store64}
use rocksdb_pmdk.NvRangeTab.{NvRangeTab, Pool}
use rocksdb_pmdk.NvRangeTab.KeyRange.{encode_range, get_real_range}
use State.{Options, RawPtr, unset, in_buf, in_extra, FixedRangeTab, Usage, chunk_bloom_filter_len}
use Search.{Status, ok_status, not_found, search_in_chunk}

module _ ⦃fixed : Fixed64⦄ where
  -- The loop of `RebuildBlkList`. Each round of a well-formed buffer moves on by eight bytes at least.
  unfoldable pub rebuild_loop :
      ℕ → (bloom_bits : ℕ) → NvRangeTab → ℕ → List ChunkBlk → Run (List ChunkBlk)
  rebuild_loop zero bloom_bits nv offset blklist = fault out_of_fuel
  rebuild_loop (suc fuel) bloom_bits nv offset blklist =
      let round : Run (List ChunkBlk) = load64 nv.buf (add64 offset bloom_bits) >>= λ chunk_len.
      rebuild_loop fuel bloom_bits nv (add64 offset (add64 bloom_bits (add64 8 chunk_len))) (
        blklist
        ++ record { bloom_bits = bloom_bits; offset = offset; chunk_len = chunk_len } ∷ []) in
      if ltb offset nv.data_len then round else ok blklist

  -- The blocks are taken to start behind `cur_` and `seq_`, two words. The list is not cleared.
  unfoldable pub rebuild_blk_list : Options → FixedRangeTab → Run FixedRangeTab
  unfolding rebuild_loop
  rebuild_blk_list options t = do
    blklist ← rebuild_loop (t.nv.data_len + 1) options.chunk_bloom_bits t.nv (8 * 2) t.blklist
    ok (record t { blklist = blklist })

  -- The constructor; `in_compaction` is what the memory held where the code does not write it.
  unfoldable pub new_range_tab : Options → NvRangeTab → (in_compaction : Bool) → Run FixedRangeTab
  unfolding rebuild_blk_list
  new_range_tab options nv in_compaction =
      if nv.seq_num == 0
      then (do
        b₁ ← store64 nv.buf 0 0
        b₂ ← store64 b₁ 8 0
        ok (record {
          nv = record nv { buf = b₂ };
          blklist = [];
          raw = in_buf (2 * 8);
          in_compaction = false;
          pendding_clean = 0;
        }))
      else rebuild_blk_list options (record {
        nv = nv;
        blklist = [];
        raw = unset;
        in_compaction = in_compaction;
        pendding_clean = 0;
      })

  -- `CheckAndUpdateKeyRange`. The new range is encoded in a new array, which is not linked to the
  -- table: the call returns that array, if there is one.
  unfoldable pub check_and_update_key_range :
      Comparator → Pool → NvRangeTab → Bytes → Bytes → Run (Option Buffer)
  check_and_update_key_range icmp pool nv new_start new_end = do
    (cur_start, cur_end) ← get_real_range nv.key_range
    let update_start : Bool = elim (icmp.cmp cur_start new_start) [ Ordering.gt ↦ true | _ ↦ false ]
    let update_end : Bool = elim (icmp.cmp cur_end new_end) [ Ordering.lt ↦ true | _ ↦ false ]
    let start = if update_start then new_start else cur_start
    let end = if update_end then new_end else cur_end
    let encoded = encode_range pool start end
    if update_start || update_end then (encoded >>= λ r. ok (some r)) else ok none

  -- The transaction of `Append`. The test of the capacity before it has an empty body. The call of
  -- `emplace_back` leaves out the block's filter size, which is that of the options here.
  unfoldable pub append_block : Options → FixedRangeTab → Bytes → Bytes → Run FixedRangeTab
  append_block options t bloom_data chunk_data = do
    let cur_len = t.nv.data_len
    let size = length chunk_data
    let blk : ChunkBlk = record {
      bloom_bits = options.chunk_bloom_bits;
      offset = cur_len;
      chunk_len = size;
    }
    guard (leb chunk_bloom_filter_len (length bloom_data)) out_of_bounds
    b₁ ← store t.nv.buf cur_len (take chunk_bloom_filter_len bloom_data)
    let dest = cur_len + chunk_bloom_filter_len
    b₂ ← store64 b₁ dest size
    b₃ ← store b₂ (dest + 8) chunk_data
    ok (record t {
      nv = record t.nv { buf = b₃; data_len = cur_len + chunk_bloom_filter_len + 8 + size };
      blklist = t.blklist ++ blk ∷ [];
    })

  unfoldable pub append :
      Options
      → Comparator
      → Pool
      → FixedRangeTab
      → Bytes
      → Bytes
      → Bytes
      → Bytes
      → Run FixedRangeTab
  append options icmp pool t bloom_data chunk_data new_start new_end = do
    t' ← append_block options t bloom_data chunk_data
    _ ← check_and_update_key_range icmp pool t'.nv new_start new_end
    ok t'

  module _ (sizeof_p_buf : ℕ) (options : Options) (icmp : Comparator) (t : FixedRangeTab)
      (target : Bytes) where
    -- The loop of `Get`, from the block `i` down. `i` is a `size_t`, so `i >= 0` always holds and
    -- `i--` wraps at 0.
    unfoldable pub get_loop : ℕ → ℕ → Bytes → Run (Status × Bytes)
    get_loop zero i out = fault out_of_fuel
    get_loop (suc fuel) i out = do
      let down = λ (out' : Bytes). get_loop fuel (sub64 i 1) out'
      blk ← of_option out_of_range (get_elem? t.blklist i)
      bloom ← load t.nv.buf blk.offset options.chunk_bloom_bits
      elim (options.key_may_match target bloom) [
        | false ↦ down out
        | true ↦ do
          iter ← open_chunk sizeof_p_buf t.nv.buf (get_dat_offset blk) blk.chunk_len
          s ← search_in_chunk icmp t.nv.buf target iter out
          elim s.status [ ok_status ↦ ok (ok_status, s.out) | not_found ↦ down s.out ]
      ]

    unfoldable pub get : Bytes → Run (Status × Bytes)
    unfolding get_loop
    get out = get_loop (length t.blklist + 1) (sub64 (length t.blklist) 1) out

  unfoldable pub range_usage : FixedRangeTab → Run Usage
  range_usage t = do
    (start, end) ← get_real_range t.nv.key_range
    ok (record { chunk_num = t.nv.chunk_num; range_size = t.nv.data_len; start = start; end = end })

  unfoldable pub clean_up : Options → FixedRangeTab → Run FixedRangeTab
  unfolding rebuild_blk_list
  clean_up options t = rebuild_blk_list options (record t { nv = record t.nv { data_len = 0 } })

  -- The word before `raw_` is compared with the sequence number; both outcomes do nothing.
  unfoldable pub consistency_check : FixedRangeTab → (extra : NvRangeTab) → Run ℕ
  consistency_check t extra = elim t.raw [
    | unset ↦ fault null_pointer
    | in_buf at ↦ load64 t.nv.buf (sub64 at 8)
    | in_extra at ↦ load64 extra.buf (sub64 at 8)
  ]

  -- `NewInternalIterator`: the chunk iterators that it hands to the merging iterator, in order.
  unfoldable pub child_iterators :
      (sizeof_p_buf : ℕ) → Options → Buffer → List ChunkBlk → Run (List PersistentChunkIterator)
  child_iterators sizeof_p_buf options buf [] = ok []
  child_iterators sizeof_p_buf options buf (blk ∷ blks) = do
    let pchk : PersistentChunk = record {
      bloom_filter_size = options.chunk_bloom_bits;
      chunk_size = blk.chunk_len;
      chunk_data = get_dat_offset blk;
    }
    it ← new_iterator sizeof_p_buf buf pchk
    its ← child_iterators sizeof_p_buf options buf blks
    ok (it ∷ its)
