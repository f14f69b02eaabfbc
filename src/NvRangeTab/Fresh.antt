-- ===== src/NvRangeTab/Fresh.antt =====
-- A table as the constructor of nv_range_tab.h makes it.
use rocksdb_pmdk.Base.{
  ℕ, ◌+◌, ◌≡◌, refl, none, some, Bytes, length, leb-eq_false_of_lt, ok, fault, out_of_bounds, arith,
  Returns,
}
use rocksdb_pmdk.Memory.{Buffer, load, write, store-ok, load-Holds, Holds-write_self}
use rocksdb_pmdk.NvRangeTab.{NvRangeTab, Pool, hash_code, new_tab, stored_hash_code}

module _ (city_hash : Bytes → ℕ → ℕ → ℕ) (prefix : Bytes) where
  -- What a new table has. `hashCode()` as fixed_range_tab.h declares it reads beyond its prefix.
  pub record IsNew (range_size : ℕ) (nv : NvRangeTab) : Type 0 where
    pub hashed : nv.hash_ ≡ hash_code city_hash prefix
    pub text : load nv.prefix 0 nv.prefix_len ≡ ok prefix
    pub no_key_range : nv.key_range ≡ none
    pub empty : (nv.data_len ≡ 0) × (nv.chunk_num ≡ 0) × (nv.seq_num ≡ 0)
    pub sized : (nv.buf_size ≡ range_size) × (nv.buf.size ≡ range_size)
    pub overread : stored_hash_code city_hash nv ≡ fault out_of_bounds

  -- If both arrays can be allocated, the constructor returns a table with the hash and the text of the
  -- prefix, no key range, no chunks, the number 0, and a buffer of the size that was asked for; on
  -- that table `hashCode()` of fixed_range_tab.h reads outside of the prefix.
  pub new_tab-IsNew :
      (pool : Pool) (range_size : ℕ) (b₁ b₂ : Buffer)
      → pool.allocate (length prefix) ≡ some b₁
      → pool.allocate range_size ≡ some b₂
      → Returns (new_tab city_hash pool prefix range_size) (IsNew range_size)
  unfolding new_tab stored_hash_code
  new_tab-IsNew pool range_size b₁ b₂ e₁ e₂ =
      let size = pool.allocate-size (length prefix) b₁ e₁ in
      let stored = store-ok b₁ 0 prefix (omega arith) in
      let room : Buffer = record b₁ { cells = write b₁.cells 0 prefix } in
      let back = load-Holds room 0 prefix (omega arith) (Holds-write_self b₁.cells 0 prefix) in
      let over : load room 0 (length prefix + 1) ≡ fault out_of_bounds =
        unfold load in
        rw (leb-eq_false_of_lt (0 + (length prefix + 1)) b₁.size (omega arith)) refl in
      rw (e₁, stored, e₂)
        (
          _,
          refl,
          record {
            hashed = refl;
            text = back;
            no_key_range = refl;
            empty = (refl, refl, refl);
            sized = (refl, pool.allocate-size range_size b₂ e₂);
            overread = rw over refl;
          },
        )
