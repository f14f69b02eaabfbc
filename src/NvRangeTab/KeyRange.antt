-- ===== src/NvRangeTab/KeyRange.antt =====
-- The key range of a table: `freqUpdateInfo::update` of fixed_range_tab.h and
-- `FixedRangeTab::CheckAndUpdateKeyRange` write it in the same way, `GetRealRange` reads it.
use rocksdb_pmdk.Base.{
  ℕ, ◌+◌, ◌*◌, ◌<◌, ◌≤◌, ◌^◌, ◌≡◌, Option, none, some, [], Bytes, length, Run, ok, fault,
  alloc_error, of_option, ◌>>=◌, arith, Returns,
}
use rocksdb_pmdk.Memory.{
  Buffer, Fixed64, write, load, store, load64, store64, store-ok, Holds, Holds-write,
  Holds-write_self, load64-Holds, load-Holds,
}
use rocksdb_pmdk.NvRangeTab.{NvRangeTab, Pool}
use rocksdb_pmdk.Base.Words.{add64}

-- `freqUpdateInfo`: a bound, two slices that nothing writes, and a count.
pub record FreqUpdateInfo : Type 0 where
  pub max_chunk_size : ℕ
  pub real_start : Bytes
  pub real_end : Bytes
  pub chunk_num : ℕ

-- The constructor; `old_num` is what the memory of `chunk_num` held.
unfoldable pub new_freq_update_info : ℕ → (old_num : ℕ) → FreqUpdateInfo
new_freq_update_info max_size old_num = record {
  max_chunk_size = max_size;
  real_start = [];
  real_end = [];
  chunk_num = old_num;
}

module _ ⦃fixed : Fixed64⦄ where
  -- `| size | start | size | end |` in a new array.
  unfoldable pub encode_range : Pool → Bytes → Bytes → Run Buffer
  encode_range pool start end = do
    room ← of_option alloc_error (pool.allocate (length start + length end + 2 * 8))
    b₁ ← store64 room 0 (length start)
    b₂ ← store b₁ 8 start
    let at = 8 + length start
    b₃ ← store64 b₂ at (length end)
    store b₃ (at + 8) end

  -- `GetKVData`: a slice behind its size.
  unfoldable pub get_kv_data : Buffer → ℕ → Run Bytes
  get_kv_data raw item_off = do
    target_size ← load64 raw item_off
    load raw (item_off + 8) target_size

  -- `GetRealRange`: with no key range both slices are empty.
  unfoldable pub get_real_range : Option Buffer → Run (Bytes × Bytes)
  get_real_range none = ok ([], [])
  get_real_range (some raw) = do
    real_start ← get_kv_data raw 0
    real_end ← get_kv_data raw (length real_start + 8)
    ok (real_start, real_end)

  -- `freqUpdateInfo::update`: a new key range, one more chunk, the next sequence number.
  unfoldable pub update : Pool → Bytes → Bytes → NvRangeTab → Run NvRangeTab
  unfolding encode_range
  update pool real_start real_end nv = do
    range ← encode_range pool real_start real_end
    ok (record nv {
      key_range = some range;
      chunk_num = add64 nv.chunk_num 1;
      seq_num = add64 nv.seq_num 1;
    })

  get_kv_data-Holds :
      (raw : Buffer) (at : ℕ) (xs : Bytes)
      → raw.size < 2 ^ 64
      → at + 8 + length xs ≤ raw.size
      → Holds raw.cells at (fixed.encode (length xs))
      → Holds raw.cells (at + 8) xs
      → get_kv_data raw at ≡ ok xs
  unfolding get_kv_data
  get_kv_data-Holds raw at xs small room h k =
      rw (load64-Holds raw at (length xs) (omega arith) (omega arith) h)
        (load-Holds raw (at + 8) xs room k)

  -- The bytes of an array after the four stores.
  abbrev range_cells : (ℕ → ℕ) → Bytes → Bytes → ℕ → ℕ
  range_cells m start end =
      let m₁ = write m 0 (fixed.encode (length start)) in
      let m₂ = write m₁ 8 start in
      let m₃ = write m₂ (8 + length start) (fixed.encode (length end)) in
      write m₃ (8 + length start + 8) end

  -- The four stores, in an array of the right size.
  pub encode_room :
      (pool : Pool) (start end : Bytes) (room : Buffer)
      → pool.allocate (length start + length end + 2 * 8) ≡ some room
      → room.size ≡ length start + length end + 16
      → encode_range pool start end ≡ ok (record room { cells = range_cells room.cells start end })
  unfolding encode_range store64
  encode_room pool start end room got size =
      let l₁ = fixed.length-encode (length start) in
      let l₂ = fixed.length-encode (length end) in
      rw (
        got,
        store-ok room 0 (fixed.encode (length start)) (omega arith),
        store-ok (record room { cells = _ }) 8 start (omega arith),
        store-ok (record room { cells = _ }) (8 + length start) (fixed.encode (length end))
            (omega arith),
        store-ok (record room { cells = _ }) (8 + length start + 8) end (omega arith),
      )

  range_cells-Holds :
      (m : ℕ → ℕ) (start end : Bytes)
      → let m₄ = range_cells m start end in
        Holds m₄ 0 (fixed.encode (length start))
        × Holds m₄ 8 start
        × Holds m₄ (8 + length start) (fixed.encode (length end))
        × Holds m₄ (8 + length start + 8) end
  range_cells-Holds m start end =
      let n = length start in
      let e₁ = fixed.encode n in
      let e₂ = fixed.encode (length end) in
      let l₁ = fixed.length-encode n in
      let l₂ = fixed.length-encode (length end) in
      let m₁ = write m 0 e₁ in
      let m₂ = write m₁ 8 start in
      let m₃ = write m₂ (8 + n) e₂ in
      (
        Holds-write m₃ (8 + n + 8) end 0 e₁ (omega arith) (
            Holds-write m₂ (8 + n) e₂ 0 e₁ (omega arith)
              (Holds-write m₁ 8 start 0 e₁ (omega arith) (Holds-write_self m 0 e₁))),
        Holds-write m₃ (8 + n + 8) end 8 start (omega arith)
            (Holds-write m₂ (8 + n) e₂ 8 start (omega arith) (Holds-write_self m₁ 8 start)),
        Holds-write m₃ (8 + n + 8) end (8 + n) e₂ (omega arith) (Holds-write_self m₂ (8 + n) e₂),
        Holds-write_self m₃ (8 + n + 8) end,
      )

  -- A range that `update` or `CheckAndUpdateKeyRange` encodes in an array that the pool gives, of
  -- fewer than 2 ^ 64 bytes, is the range that `GetRealRange` reads back from it.
  pub get_real_range-encode_range :
      (pool : Pool) (start end : Bytes) (room : Buffer)
      → pool.allocate (length start + length end + 2 * 8) ≡ some room
      → length start + length end + 16 < 2 ^ 64
      → Returns (encode_range pool start end) λ r. get_real_range (some r) ≡ ok (start, end)
  unfolding get_real_range
  get_real_range-encode_range pool start end room got small =
      let size = pool.allocate-size _ room got in
      let (h₁, h₂, h₃, h₄) = range_cells-Holds room.cells start end in
      let r = record room { cells = range_cells room.cells start end } in
      let at = 8 + length start in
      let flip : length start + 8 ≡ at = omega arith in
      (
        r,
        encode_room pool start end room got (omega arith),
        rw (
          get_kv_data-Holds r 0 start (omega arith) (omega arith) h₁ h₂,
          flip,
          get_kv_data-Holds r at end (omega arith) (omega arith) h₃ h₄,
        ),
      )

  -- With no memory for the array the call throws.
  pub update-alloc_error :
      (pool : Pool) (start end : Bytes) (nv : NvRangeTab)
      → pool.allocate (length start + length end + 2 * 8) ≡ none
      → update pool start end nv ≡ fault alloc_error
  unfolding update
  update-alloc_error pool start end nv e = rw e
