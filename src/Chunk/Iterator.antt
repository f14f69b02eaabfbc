-- ===== src/Chunk/Iterator.antt =====
-- The iterator: its constructor reads the pair offsets at the end of the chunk, and the methods move
-- `current_`. A slice is read when it is handed out. `sizeof_p_buf` is the size of libpmemobj's
-- `persistent_ptr<char[]>`, by which the constructor steps back over the offsets. The loop's `int`
-- counter is taken to reach the number of pairs.
use rocksdb_pmdk.Base.{
  ℕ, zero, suc, Bool, List, [], ◌∷◌, Bytes, length, get_elem?, ltb, Run, ok, out_of_range,
  assertion_failed, ◌>>=◌, ◌>>◌, guard, of_option,
}
use rocksdb_pmdk.Base.Words.{add64, sub64, mul64}
use rocksdb_pmdk.Memory.{Buffer, Fixed64, load, load64}

-- `_Dat_`: a size and a pointer into the buffer.
pub record Dat : Type 0 where
  pub size : ℕ
  pub buf : ℕ

pub record PersistentChunkIterator : Type 0 where
  pub data_ : ℕ
  pub v_key : List Dat
  pub v_value : List Dat
  pub current : ℕ

module _ ⦃fixed : Fixed64⦄ where
  -- The body of the constructor's loop: one pair, found through the offset at `meta_offset`.
  unfoldable pub read_pair : Buffer → ℕ → ℕ → Run (Dat × Dat)
  read_pair b start meta_offset = do
    pair_offset ← load64 b meta_offset
    let pair_addr = add64 start pair_offset
    key_size ← load64 b pair_addr
    let value_addr = add64 pair_addr (add64 8 key_size)
    value_size ← load64 b value_addr
    ok (
      record { size = key_size; buf = add64 pair_addr 8 },
      record { size = value_size; buf = add64 value_addr 8 },
    )

  unfoldable pub read_pairs : ℕ → Buffer → ℕ → ℕ → Run (List Dat × List Dat)
  read_pairs zero b start meta_offset = ok ([], [])
  read_pairs (suc n) b start meta_offset = do
    (k, v) ← read_pair b start meta_offset
    (ks, vs) ← read_pairs n b start (add64 meta_offset 8)
    ok (k ∷ ks, v ∷ vs)

  -- The constructor leaves `current_` as it finds it; 0 stands for what is there.
  unfoldable pub open_chunk : (sizeof_p_buf : ℕ) → Buffer → ℕ → ℕ → Run PersistentChunkIterator
  open_chunk sizeof_p_buf b start size = do
    let n_pairs_offset = sub64 (add64 start size) 8
    n_pairs ← load64 b n_pairs_offset
    let meta_offset = sub64 n_pairs_offset (mul64 sizeof_p_buf n_pairs)
    (ks, vs) ← read_pairs n_pairs b start meta_offset
    ok (record { data_ = start; v_key = ks; v_value = vs; current = 0 })

-- The slice behind an entry of `vKey_` or `vValue_`.
unfoldable pub slice_at : Buffer → List Dat → ℕ → Run Bytes
slice_at b ds i = of_option out_of_range (get_elem? ds i) >>= λ d. load b d.buf d.size

unfoldable pub key : Buffer → PersistentChunkIterator → Run Bytes
unfolding slice_at
key b it = slice_at b it.v_key it.current

unfoldable pub value : Buffer → PersistentChunkIterator → Run Bytes
unfolding slice_at
value b it = slice_at b it.v_value it.current

unfoldable pub count : PersistentChunkIterator → ℕ
count it = length it.v_key

unfoldable pub seek_to : PersistentChunkIterator → ℕ → PersistentChunkIterator
seek_to it idx = record it { current = idx }

unfoldable pub seek_to_first : PersistentChunkIterator → PersistentChunkIterator
seek_to_first it = record it { current = 0 }

unfoldable pub seek_to_last : PersistentChunkIterator → PersistentChunkIterator
seek_to_last it = record it { current = sub64 (length it.v_key) 1 }

unfoldable pub is_valid : PersistentChunkIterator → Bool
is_valid it = ltb it.current (length it.v_key)

unfoldable pub next : PersistentChunkIterator → Run PersistentChunkIterator
unfolding is_valid
next it = guard (is_valid it) assertion_failed >> ok (record it { current = add64 it.current 1 })

unfoldable pub prev : PersistentChunkIterator → Run PersistentChunkIterator
unfolding is_valid
prev it = guard (is_valid it) assertion_failed >> ok (record it { current = sub64 it.current 1 })
