-- ===== src/RangeTab/Append.antt =====
-- Appending a chunk to a range.
use rocksdb_pmdk.Base.{
  ℕ, ◌+◌, ◌≤◌, ◌≡◌, List, [], ◌∷◌, ◌++◌, Bytes, length, length-append, take-all, le→leb, All-append,
  ok, arith, Returns, Option, refl,
}
use rocksdb_pmdk.Comparator.{Comparator}
use rocksdb_pmdk.Memory.{
  Buffer, Fixed64, write, store64, store-ok, Holds, Holds-at, Holds-append, Holds-write,
  Holds-write_self,
}
use rocksdb_pmdk.NvRangeTab.{NvRangeTab, Pool}
use rocksdb_pmdk.RangeTab.{append_block, append, check_and_update_key_range}
use rocksdb_pmdk.RangeTab.State.{Options, FixedRangeTab, chunk_bloom_filter_len}
use rocksdb_pmdk.RangeTab.Blocks.{
  Block, blocks_at, block_bytes, image, IsStored, length-block_bytes, image-last, blocks_at-last,
}

module _ ⦃fixed : Fixed64⦄ where
  -- The three stores of one block at `at`.
  abbrev block_cells : (ℕ → ℕ) → ℕ → Block → ℕ → ℕ
  block_cells m at c =
      let m₁ = write m at c.bloom in
      let m₂ = write m₁ (at + 8) (fixed.encode (length c.body)) in write m₂ (at + 8 + 8) c.body

  block_cells-Holds :
      (m : ℕ → ℕ) (at : ℕ) (c : Block)
      → length c.bloom ≡ 8
      → Holds (block_cells m at c) at (block_bytes c)
  block_cells-Holds m at c f =
      let n = length c.body in
      let l = fixed.length-encode n in
      let m₁ = write m at c.bloom in
      let m₂ = write m₁ (at + 8) (fixed.encode n) in
      let m₃ = write m₂ (at + 8 + 8) c.body in
      let h₁ = Holds-write m₂ (at + 8 + 8) c.body at c.bloom (omega arith) (
        Holds-write m₁ (at + 8) (fixed.encode n) at c.bloom (omega arith)
          (Holds-write_self m at c.bloom)) in
      let h₂ =
        Holds-write m₂ (at + 8 + 8) c.body (at + 8) (fixed.encode n) (omega arith)
          (Holds-write_self m₁ (at + 8) (fixed.encode n)) in
      let h₃ = Holds-write_self m₂ (at + 8 + 8) c.body in
      Holds-append m₃ at c.bloom (fixed.encode n ++ c.body) h₁ (
        Holds-at m₃ (at + 8) _ _ (omega arith) (
          Holds-append m₃ (at + 8) (fixed.encode n) c.body h₂
            (Holds-at m₃ (at + 8 + 8) _ _ (omega arith) h₃)))

  -- A block is written behind what stands before it.
  block_cells-Holds_before :
      (m : ℕ → ℕ) (at : ℕ) (c : Block) (b : ℕ) (xs : Bytes)
      → b + length xs ≤ at
      → Holds m b xs
      → Holds (block_cells m at c) b xs
  block_cells-Holds_before m at c b xs before h =
      let n = length c.body in
      let m₁ = write m at c.bloom in
      let m₂ = write m₁ (at + 8) (fixed.encode n) in
      Holds-write m₂ (at + 8 + 8) c.body b xs (omega arith) (
        Holds-write m₁ (at + 8) (fixed.encode n) b xs (omega arith)
          (Holds-write m at c.bloom b xs (omega arith) h))

  -- The table after the transaction, if the block has room.
  abbrev pub appended : Options → FixedRangeTab → Block → FixedRangeTab
  appended options t c = record t {
    nv = record t.nv {
      buf = record t.nv.buf { cells = block_cells t.nv.buf.cells t.nv.data_len c };
      data_len = t.nv.data_len + chunk_bloom_filter_len + 8 + length c.body;
    };
    blklist =
        t.blklist
        ++ record {
          bloom_bits = options.chunk_bloom_bits;
          offset = t.nv.data_len;
          chunk_len = length c.body;
        }
          ∷ [];
  }

  pub append_block-ok :
      (options : Options) (t : FixedRangeTab) (c : Block)
      → length c.bloom ≡ 8
      → t.nv.data_len + 16 + length c.body ≤ t.nv.buf.size
      → append_block options t c.bloom c.body ≡ ok (appended options t c)
  unfolding append_block store64
  append_block-ok options t c f room =
      let l = fixed.length-encode (length c.body) in
      rw (
        le→leb 8 (length c.bloom) (omega arith),
        take-all c.bloom 8 f,
        store-ok t.nv.buf t.nv.data_len c.bloom (omega arith),
        store-ok (record t.nv.buf { cells = _ }) (t.nv.data_len + 8) (fixed.encode (length c.body))
            (omega arith),
        store-ok (record t.nv.buf { cells = _ }) (t.nv.data_len + 8 + 8) c.body (omega arith),
      )

  pub append_block-IsStored :
      (options : Options) (t : FixedRangeTab) (base : ℕ) (cs : List Block) (c : Block)
      → options.chunk_bloom_bits ≡ 8
      → IsStored 8 t.nv base cs
      → t.blklist ≡ blocks_at 8 base cs
      → length c.bloom ≡ 8
      → t.nv.data_len + 16 + length c.body ≤ t.nv.buf.size
      → Returns
          (append_block options t c.bloom c.body)
          λ r. IsStored 8 r.nv base (cs ++ c ∷ []) × (r.blklist ≡ blocks_at 8 base (cs ++ c ∷ []))
  append_block-IsStored options t base cs c bits s listed f room =
      let len = length-block_bytes c in
      let len' = length-append (image cs) (block_bytes c) in
      let m = block_cells t.nv.buf.cells t.nv.data_len c in
      let old =
        block_cells-Holds_before t.nv.buf.cells t.nv.data_len c base (image cs)
          (omega (arith, s.ends)) s.holds in
      let new =
        Holds-at m t.nv.data_len (base + length (image cs)) (block_bytes c) (omega (arith, s.ends))
          (block_cells-Holds t.nv.buf.cells t.nv.data_len c f) in
      (
        appended options t c,
        append_block-ok options t c f room,
        (
          record {
            filters = All-append (λ d. length d.bloom ≡ 8) cs (c ∷ []) s.filters (f, tt);
            holds = rw (image-last cs c) (Holds-append m base (image cs) (block_bytes c) old new);
            ends = rw (image-last cs c) (omega (arith, s.ends));
            fits = omega arith;
            small = s.small;
          },
          rw (listed, bits, blocks_at-last 8 base cs c s.filters, s.ends),
        ),
      )

  pub append_block-key_range :
      (options : Options) (t r : FixedRangeTab) (bloom body : Bytes)
      → append_block options t bloom body ≡ ok r
      → r.nv.key_range ≡ t.nv.key_range
  unfolding append_block
  append_block-key_range options t r bloom body h = ground arith

  module _ (icmp : Comparator) (pool : Pool) where
    -- The key range can be updated: what is read of it is there, and so is a new array if one is needed.
    abbrev pub CanUpdate : NvRangeTab → Bytes → Bytes → Type 0
    CanUpdate nv start end =
        (o : Option Buffer) × (check_and_update_key_range icmp pool nv start end ≡ ok o)

    pub CanUpdate-same :
        (nv nv' : NvRangeTab) (start end : Bytes)
        → nv'.key_range ≡ nv.key_range
        → CanUpdate nv start end
        → CanUpdate nv' start end
    unfolding check_and_update_key_range
    CanUpdate-same nv nv' start end same (o, run) = (o, rw same run)

    -- An append whose transaction returns, and behind which the key range can be updated.
    pub append-ok :
        (options : Options) (t r : FixedRangeTab) (bloom body start end : Bytes)
        → append_block options t bloom body ≡ ok r
        → CanUpdate t.nv start end
        → append options icmp pool t bloom body start end ≡ ok r
    unfolding append
    append-ok options t r bloom body start end run can =
        let kept = append_block-key_range options t r bloom body run in
        let (o, check) = CanUpdate-same t.nv r.nv start end kept can in rw (run, check) refl

    -- Appending to a range of well-formed blocks, with filters of eight bytes, room for the new block
    -- and a key range that can be updated, ends normally: the buffer then holds the old blocks and
    -- behind them the new one, and the block list, if it listed the old blocks, lists them and the
    -- new one.
    pub append-IsStored :
        (options : Options) (t : FixedRangeTab) (base : ℕ) (cs : List Block) (c : Block)
        (start end : Bytes)
        → options.chunk_bloom_bits ≡ 8
        → IsStored 8 t.nv base cs
        → t.blklist ≡ blocks_at 8 base cs
        → length c.bloom ≡ 8
        → t.nv.data_len + 16 + length c.body ≤ t.nv.buf.size
        → CanUpdate t.nv start end
        → Returns
            (append options icmp pool t c.bloom c.body start end)
            λ r. IsStored 8 r.nv base (cs ++ c ∷ []) × (r.blklist ≡ blocks_at 8 base (cs ++ c ∷ []))
    append-IsStored options t base cs c start end bits s listed f room can =
        let (r, run, stored) = append_block-IsStored options t base cs c bits s listed f room in
        (r, append-ok options t r c.bloom c.body start end run can, stored)
