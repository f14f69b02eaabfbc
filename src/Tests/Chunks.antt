-- ===== src/Tests/Chunks.antt =====
-- Chunks and the search in them.
use rocksdb_pmdk.Base.{
  ◌≡◌, refl, some, List, [], ◌∷◌, Bytes, length, ok, fault, out_of_range, Returns, arith,
}
use rocksdb_pmdk.Chunk.Format.{Pair, Views, chunk_bytes}
use rocksdb_pmdk.Chunk.Iterator.{
  PersistentChunkIterator, read_pair, read_pairs, open_chunk, seek_to_first, seek_to_last,
}
use rocksdb_pmdk.Chunk.Walk.{walk, walk_back, open_chunk-walks}
use rocksdb_pmdk.Memory.{Buffer, Holds-write_self, write, read, load, load64}
use rocksdb_pmdk.RangeTab.Search.{search_in_chunk}
use rocksdb_pmdk.RangeTab.Search.Fails.{search_in_chunk-throws}
use rocksdb_pmdk.RangeTab.Search.Found.{Answers, search_in_chunk-Answers}
use rocksdb_pmdk.RangeTab.Search.Sorted.{IsSorted}
use rocksdb_pmdk.Tests.Fixtures.{little_endian, le_bytes, le_value, lex, bytewise}

-- Two pairs, and the sixteen bytes that a pointer of sixteen bytes makes the iterator step over.
abbrev pub two_pairs : List Pair
two_pairs = ((10 ∷ []), (1 ∷ 2 ∷ [])) ∷ ((20 ∷ 5 ∷ []), []) ∷ []

abbrev pub two_gap : Bytes
two_gap = 0 ∷ 0 ∷ 0 ∷ 0 ∷ 0 ∷ 0 ∷ 0 ∷ 0 ∷ 0 ∷ 0 ∷ 0 ∷ 0 ∷ 0 ∷ 0 ∷ 0 ∷ 0 ∷ []

abbrev pub two_bytes : Bytes
two_bytes = chunk_bytes two_pairs two_gap

abbrev chunk_buffer : Buffer
chunk_buffer = record { cells = write (λ a. 7) 100 two_bytes; size = 200 }

chunk_size : length two_bytes ≡ 77
unfolding le_bytes
chunk_size = refl

open_chunk-walks_example : Returns (open_chunk 16 chunk_buffer 100 (length two_bytes)) λ it.
    (walk chunk_buffer 3 (seek_to_first it) ≡ ok two_pairs)
    × (walk_back chunk_buffer 3 (seek_to_last it) [] ≡ ok two_pairs)
open_chunk-walks_example =
    open_chunk-walks chunk_buffer (omega arith) 100 16 3 two_pairs two_gap refl
      (Holds-write_self (λ a. 7) 100 two_bytes) (omega (arith, chunk_size)) (omega arith)

abbrev cursor : PersistentChunkIterator
cursor = record {
  data_ = 100;
  v_key = record { size = 1; buf = 108 } ∷ record { size = 2; buf = 127 } ∷ [];
  v_value = record { size = 2; buf = 117 } ∷ record { size = 0; buf = 137 } ∷ [];
  current = 0;
}

open_chunk_runs : open_chunk 16 chunk_buffer 100 77 ≡ ok cursor
unfolding open_chunk read_pairs read_pair le_bytes le_value load64 load read write
open_chunk_runs = refl

cursor-Views : Views chunk_buffer cursor.v_key cursor.v_value two_pairs
unfolding load read write le_bytes
cursor-Views = (refl, refl, (refl, refl, tt))

abbrev pub two_sorted : IsSorted bytewise two_pairs
unfolding lex
two_sorted = ((refl, tt), (tt, tt))

search_in_chunk-Answers_example :
    Returns
      (search_in_chunk bytewise chunk_buffer (20 ∷ 5 ∷ []) cursor (9 ∷ []))
      (Answers (some []) (9 ∷ []))
unfolding lex
search_in_chunk-Answers_example =
    search_in_chunk-Answers bytewise chunk_buffer (20 ∷ 5 ∷ []) two_pairs cursor (9 ∷ []) two_sorted
      (omega arith) (unfold lex in cc) cursor-Views

search_in_chunk-throws_example :
    search_in_chunk bytewise chunk_buffer (9 ∷ []) cursor [] ≡ fault out_of_range
search_in_chunk-throws_example =
    search_in_chunk-throws bytewise chunk_buffer (9 ∷ []) two_pairs cursor [] two_sorted
      (omega arith) (unfold lex in refl) cursor-Views
