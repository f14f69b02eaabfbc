-- ===== src/ChunkBlk.antt =====
-- chunkblk.h and chunkblk.cc: where a chunk block stands in the buffer of its range.
use rocksdb_pmdk.Base.{ℕ}
use rocksdb_pmdk.Base.Words.{add64}

-- `offset` is that of the bloom filter, the first part of the block.
pub record ChunkBlk : Type 0 where
  pub bloom_bits : ℕ
  pub offset : ℕ
  pub chunk_len : ℕ

-- Behind the filter stands the length of the chunk, a `size_t`, and then the chunk.
unfoldable pub get_dat_offset : ChunkBlk → ℕ
get_dat_offset b = add64 (add64 b.offset b.bloom_bits) 8
