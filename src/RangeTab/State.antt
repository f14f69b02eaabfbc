-- ===== src/RangeTab/State.antt =====
-- The state of a range in memory, its options, and the methods that only read or set fields.
use rocksdb_pmdk.Base.{ℕ, Bool, List, Bytes, length}
use rocksdb_pmdk.ChunkBlk.{ChunkBlk}
use rocksdb_pmdk.NvRangeTab.{NvRangeTab}

-- `FixedRangeBasedOptions`, as far as this code reads it: the size of a chunk's filter and
-- `filter_policy_->KeyMayMatch`.
pub record Options : Type 0 where
  pub chunk_bloom_bits : ℕ
  pub key_may_match : Bytes → Bytes → Bool

-- `raw_`: a pointer into the buffer of the table or into that of its extra table.
pub data RawPtr : Type 0 where
  unset : RawPtr
  in_buf : ℕ → RawPtr
  in_extra : ℕ → RawPtr

pub record FixedRangeTab : Type 0 where
  pub nv : NvRangeTab
  pub blklist : List ChunkBlk
  pub raw : RawPtr
  pub in_compaction : Bool
  pub pendding_clean : ℕ

-- `CHUNK_BLOOM_FILTER_LEN`
abbrev pub chunk_bloom_filter_len : ℕ
chunk_bloom_filter_len = 8

abbrev pub max_chunk_num_to_flush : ℕ
max_chunk_num_to_flush = 1024

pub record Usage : Type 0 where
  pub chunk_num : ℕ
  pub range_size : ℕ
  pub start : Bytes
  pub end : Bytes

-- `extra` is the table at the address `extra_buf`; both tables change.
unfoldable pub set_extra_buf :
    FixedRangeTab → (extra_buf : ℕ) → NvRangeTab → FixedRangeTab × NvRangeTab
set_extra_buf t extra_buf extra = (
  record t { nv = record t.nv { extra_buf = extra_buf }; raw = in_extra 0 },
  record extra { seq_num = t.nv.seq_num },
)

unfoldable pub set_compaction_working : FixedRangeTab → Bool → FixedRangeTab
set_compaction_working t working = record t {
  pendding_clean = length t.blklist;
  in_compaction = working;
}

unfoldable pub is_compact_working : FixedRangeTab → Bool
is_compact_working t = t.in_compaction

unfoldable pub max_range_size : FixedRangeTab → ℕ
max_range_size t = t.nv.buf_size
