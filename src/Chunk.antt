-- ===== src/Chunk.antt =====
-- persistent_chunk.h, persistent_chunk_iterator.h and persistent_chunk_iterator.cc: one sorted run
-- of key-value pairs inside the buffer of a range, and the iterator over it.
pub mod Iterator
pub mod Format
pub mod Open
pub mod Views
pub mod Walk
use rocksdb_pmdk.Base.{ℕ, Run}
use rocksdb_pmdk.Memory.{Buffer, Fixed64}
use Iterator.{PersistentChunkIterator, open_chunk}

-- `chunk_data` is an offset into the buffer of the range.
pub record PersistentChunk : Type 0 where
  pub bloom_filter_size : ℕ
  pub chunk_size : ℕ
  pub chunk_data : ℕ

-- `PersistentChunk::reset` writes all three fields.
unfoldable pub reset : PersistentChunk → ℕ → ℕ → ℕ → PersistentChunk
reset c bloom_filter_size chunk_size chunk_data = record {
  bloom_filter_size = bloom_filter_size;
  chunk_size = chunk_size;
  chunk_data = chunk_data;
}

module _ ⦃fixed : Fixed64⦄ (sizeof_p_buf : ℕ) where
  -- The iterator is placed in the memory of the arena, which is taken not to be null, as the assertion
  -- in front demands.
  unfoldable pub new_iterator : Buffer → PersistentChunk → Run PersistentChunkIterator
  new_iterator b c = open_chunk sizeof_p_buf b c.chunk_data c.chunk_size
