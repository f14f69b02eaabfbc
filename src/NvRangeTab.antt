-- ===== src/NvRangeTab.antt =====
-- `NvRangeTab` of nv_range_tab.h and fixed_range_tab.h: the persistent part of a range, and the
-- encoding of its key range.
pub mod KeyRange
pub mod Fresh
use rocksdb_pmdk.Base.{
  ℕ, ◌+◌, ◌≡◌, Bytes, Option, none, some, length, Run, ok, alloc_error, of_option, ◌>>=◌,
}
use rocksdb_pmdk.Memory.{Buffer, load, store}

-- `extra_buf` is the address of another table, 0 for none.
pub record NvRangeTab : Type 0 where
  pub hash_ : ℕ
  pub prefix_len : ℕ
  pub prefix : Buffer
  pub key_range : Option Buffer
  pub chunk_num : ℕ
  pub seq_num : ℕ
  pub buf_size : ℕ
  pub buf : Buffer
  pub data_len : ℕ
  pub extra_buf : ℕ

-- `make_persistent<char[]>` of libpmemobj, during one call: `none` is a failed allocation.
pub record Pool : Type 0 where
  pub allocate : ℕ → Option Buffer
  pub allocate-size : (n : ℕ) (b : Buffer) → allocate n ≡ some b → b.size ≡ n

-- `CityHash64WithSeed` is the parameter `city_hash`.
module _ (city_hash : Bytes → ℕ → ℕ → ℕ) where
  unfoldable pub hash_code : Bytes → ℕ
  hash_code prefix = city_hash prefix (length prefix) 16

  -- The constructor. Everything runs in one transaction, so a failed allocation leaves nothing.
  unfoldable pub new_tab : Pool → Bytes → ℕ → Run NvRangeTab
  unfolding hash_code
  new_tab pool prefix range_size = do
    prefix_room ← of_option alloc_error (pool.allocate (length prefix))
    prefix_buf ← store prefix_room 0 prefix
    buf ← of_option alloc_error (pool.allocate range_size)
    ok (record {
      hash_ = hash_code prefix;
      prefix_len = length prefix;
      prefix = prefix_buf;
      key_range = none;
      chunk_num = 0;
      seq_num = 0;
      buf_size = range_size;
      buf = buf;
      data_len = 0;
      extra_buf = 0;
    })

  -- `hashCode()` of the struct in fixed_range_tab.h: it reads the prefix with one byte more.
  unfoldable pub stored_hash_code : NvRangeTab → Run ℕ
  stored_hash_code nv =
      load nv.prefix 0 (nv.prefix_len + 1) >>= λ key. ok (city_hash key nv.prefix_len 16)

-- `GetRawBuf`
unfoldable pub get_raw_buf : NvRangeTab → Buffer
get_raw_buf nv = nv.buf
