-- ===== src/RangeTab/Scan.antt =====
-- The iterators that a range hands to a merging iterator.
use rocksdb_pmdk.Base.{
  ℕ, suc, ◌≡◌, refl, ◌∙◌, some, List, [], ◌∷◌, Bytes, length, length-map, get_elem?, map, ok,
  Returns, arith,
}
use rocksdb_pmdk.Chunk.{new_iterator}
use rocksdb_pmdk.Chunk.Format.{Views}
use rocksdb_pmdk.Chunk.Iterator.{PersistentChunkIterator, open_chunk}
use rocksdb_pmdk.ChunkBlk.{ChunkBlk, get_dat_offset}
use rocksdb_pmdk.Comparator.{Comparator}
use rocksdb_pmdk.Memory.{Buffer, Fixed64}
use rocksdb_pmdk.RangeTab.{child_iterators}
use rocksdb_pmdk.RangeTab.Blocks.{length-blocks_at}
use rocksdb_pmdk.RangeTab.Get.{IsRange}
use rocksdb_pmdk.RangeTab.Get.Rounds.{Chunk, block_of, stored-Reads}
use rocksdb_pmdk.RangeTab.State.{Options, FixedRangeTab}

-- The iterators read as the pairs of the chunks, one for each and in order.
abbrev pub AllView : Buffer → List PersistentChunkIterator → List Chunk → Type 0
AllView b [] [] = Unit
AllView b (it ∷ its) (c ∷ cs) = Views b it.v_key it.v_value c.pairs × AllView b its cs
AllView b its cs = ⊥

module _ ⦃fixed : Fixed64⦄ (sizeof_p_buf : ℕ) (options : Options) (b : Buffer) where
  -- The entry number `i` leads to the chunk.
  record Opens (blks : List ChunkBlk) (i : ℕ) (c : Chunk) : Type 0 where
    blk : ChunkBlk
    entry : get_elem? blks i ≡ some blk
    iter : PersistentChunkIterator
    opened : open_chunk sizeof_p_buf b (get_dat_offset blk) blk.chunk_len ≡ ok iter
    views : Views b iter.v_key iter.v_value c.pairs

  child_iterators-AllView :
      (blks : List ChunkBlk) (cs : List Chunk)
      → length blks ≡ length cs
      → ((i : ℕ) (c : Chunk) → get_elem? cs i ≡ some c → Opens blks i c)
      → Returns (child_iterators sizeof_p_buf options b blks) λ its. AllView b its cs
  unfolding child_iterators new_iterator
  child_iterators-AllView [] [] len opens = ([], refl, tt)
  child_iterators-AllView (blk ∷ blks) (c ∷ cs) len opens =
      let o = opens 0 c refl in
      let same : blk ≡ o.blk = cc in
      let run : open_chunk sizeof_p_buf b (get_dat_offset blk) blk.chunk_len ≡ ok o.iter =
        rw same o.opened in
      let (its, runs, views) = child_iterators-AllView blks cs (omega (arith, len)) (λ i d e.
        let p = opens (suc i) d e in
        record {
          blk = p.blk;
          entry = p.entry;
          iter = p.iter;
          opened = p.opened;
          views = p.views;
        }) in
      (o.iter ∷ its, rw (run, runs) refl, (o.views, views))
  child_iterators-AllView [] (c ∷ cs) len opens = absurd (omega (arith, len))
  child_iterators-AllView (blk ∷ blks) [] len opens = absurd (omega (arith, len))

module _ ⦃fixed : Fixed64⦄ (sizeof_p_buf : ℕ) (options : Options) (icmp : Comparator) where
  pub range-AllView :
      (t : FixedRangeTab) (target : Bytes) (base : ℕ) (cs : List Chunk)
      → IsRange sizeof_p_buf options icmp t target base cs
      → Returns
          (child_iterators sizeof_p_buf options t.nv.buf t.blklist)
          λ its. AllView t.nv.buf its cs
  range-AllView t target base cs r =
      let len =
        length-blocks_at options.chunk_bloom_bits base (map block_of cs) ∙ length-map block_of cs in
      child_iterators-AllView sizeof_p_buf options t.nv.buf t.blklist cs (rw r.listed len) (λ i c e.
        let d =
          stored-Reads sizeof_p_buf options icmp t target base cs i c r.stored r.listed e
            (r.chunks i c e) in
        record { blk = d.blk; entry = d.entry; iter = d.iter; opened = d.opened; views = d.views })
