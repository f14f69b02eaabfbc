-- ===== src/RangeTab/Rebuild.antt =====
-- Rebuilding the block list after a restart.
use rocksdb_pmdk.Base.{
  ℕ, zero, suc, ◌+◌, ◌-◌, ◌<◌, ◌≤◌, ◌^◌, ◌≡◌, ◌∙◌, ap, List, [], ◌∷◌, ◌++◌, length, length-append,
  All, ok, arith, lt→ltb, ltb-eq_false_of_le,
}
use mathlib.Core.List.{append_assoc, append-nil}
use rocksdb_pmdk.Base.Words.{add64}
use rocksdb_pmdk.ChunkBlk.{ChunkBlk}
use rocksdb_pmdk.Memory.{Fixed64, Holds, Holds-at, Holds-left, Holds-right, load64-Holds}
use rocksdb_pmdk.NvRangeTab.{NvRangeTab}
use rocksdb_pmdk.RangeTab.{rebuild_loop, rebuild_blk_list}
use rocksdb_pmdk.RangeTab.State.{Options, FixedRangeTab}
use rocksdb_pmdk.RangeTab.Blocks.{
  Block, blocks_at, block_bytes, image, IsStored, length-block_bytes,
}

module _ ⦃fixed : Fixed64⦄ (nv : NvRangeTab) (small : nv.buf.size < 2 ^ 64)
    (fits : nv.data_len ≤ nv.buf.size) (bits : ℕ) where
  rebuild_loop-step :
      (fuel offset n : ℕ) (acc : List ChunkBlk)
      → offset + bits + 8 + n ≤ nv.data_len
      → Holds nv.buf.cells (offset + bits) (fixed.encode n)
      → rebuild_loop (suc fuel) bits nv offset acc
        ≡ rebuild_loop fuel bits nv
            (offset + (bits + 8 + n))
            (acc ++ record { bloom_bits = bits; offset = offset; chunk_len = n } ∷ [])
  unfolding rebuild_loop
  rebuild_loop-step fuel offset n acc room h =
      let e₁ : add64 offset bits ≡ offset + bits = omega arith in
      let e₂ : add64 offset (add64 bits (add64 8 n)) ≡ offset + (bits + 8 + n) = omega arith in
      rw (
        lt→ltb offset nv.data_len (omega arith),
        e₁,
        load64-Holds nv.buf (offset + bits) n (omega arith) (omega arith) h,
        e₂,
      )

  rebuild_loop-blocks_at :
      (fuel offset : ℕ) (acc : List ChunkBlk) (cs : List Block)
      → All (λ c. length c.bloom ≡ bits) cs
      → Holds nv.buf.cells offset (image cs)
      → offset + length (image cs) ≡ nv.data_len
      → nv.data_len - offset < fuel
      → rebuild_loop fuel bits nv offset acc ≡ ok (acc ++ blocks_at bits offset cs)
  rebuild_loop-blocks_at zero offset acc cs f h ends enough = absurd (omega arith)
  rebuild_loop-blocks_at (suc fuel) offset acc [] f h ends enough =
      unfold rebuild_loop in
      rw (ltb-eq_false_of_le offset nv.data_len (omega arith), append-nil acc)
  rebuild_loop-blocks_at (suc fuel) offset acc (c ∷ cs) f h ends enough =
      let n = length c.body in
      let len = length-append (block_bytes c) (image cs) in
      let len' = length-block_bytes c in
      let next = offset + (bits + 8 + n) in
      let h₁ = Holds-left nv.buf.cells offset (block_bytes c) (image cs) h in
      let h₂ = Holds-right nv.buf.cells offset c.bloom _ h₁ in
      let h₃ =
        Holds-at nv.buf.cells _ (offset + bits) _ (omega arith)
          (Holds-left nv.buf.cells _ (fixed.encode n) c.body h₂) in
      let rest =
        Holds-at nv.buf.cells _ next _ (omega arith)
          (Holds-right nv.buf.cells offset (block_bytes c) (image cs) h) in
      rebuild_loop-step fuel offset n acc (omega arith) h₃
      ∙ rebuild_loop-blocks_at fuel next (acc ++ _ ∷ []) cs f.1 rest (omega arith) (omega arith)
      ∙ ap ok (append_assoc acc _ _)

-- Where the buffer holds well-formed blocks from its seventeenth byte to its length, and the filters
-- have the size of the options, `RebuildBlkList` ends normally and adds the entries of exactly
-- these blocks, in order, to the list.
pub rebuild_blk_list-blocks_at :
    ⦃fixed : Fixed64⦄ (options : Options) (t : FixedRangeTab) (cs : List Block)
    → IsStored options.chunk_bloom_bits t.nv 16 cs
    → rebuild_blk_list options t
      ≡ ok (record t { blklist = t.blklist ++ blocks_at options.chunk_bloom_bits 16 cs })
unfolding rebuild_blk_list
rebuild_blk_list-blocks_at options t cs s = rw (
    rebuild_loop-blocks_at t.nv s.small s.fits options.chunk_bloom_bits (t.nv.data_len + 1) 16
      t.blklist cs s.filters s.holds s.ends (omega arith))
