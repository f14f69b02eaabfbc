-- ===== src/RangeTab/Cycle.antt =====
-- An append, followed by a read or by a restart.
use rocksdb_pmdk.Base.{
  ok_inj, refl, ℕ, zero, suc, subst, ◌+◌, ◌≤◌, ◌≡◌, ◌∙◌, sym, ap, some, List, [], ◌∷◌, ◌++◌, Bytes,
  length, get_elem?, get_elem?-append_last, lt_of_get_elem?, length-append, map, ok, arith, Returns,
}
use mathlib.Core.List.{map-append}
use rocksdb_pmdk.Chunk.Format.{chunk_bytes}
use rocksdb_pmdk.ChunkBlk.{ChunkBlk}
use rocksdb_pmdk.Comparator.{Comparator}
use rocksdb_pmdk.Memory.{Fixed64}
use rocksdb_pmdk.NvRangeTab.{Pool}
use rocksdb_pmdk.RangeTab.{append_block, append, rebuild_blk_list, get}
use rocksdb_pmdk.RangeTab.Append.{
  append_block-IsStored, append_block-ok, appended, CanUpdate, append-ok, append-IsStored,
}
use rocksdb_pmdk.RangeTab.Blocks.{Block, blocks_at, IsStored}
use rocksdb_pmdk.RangeTab.Get.{IsRange, get-newest}
use rocksdb_pmdk.RangeTab.Get.Rounds.{Chunk, block_of, IsChunk, Hits}
use rocksdb_pmdk.RangeTab.Rebuild.{rebuild_blk_list-blocks_at}
use rocksdb_pmdk.RangeTab.Search.{ok_status}
use rocksdb_pmdk.RangeTab.State.{Options, FixedRangeTab}

module _ ⦃fixed : Fixed64⦄ (options : Options) (t : FixedRangeTab)
    (bits : options.chunk_bloom_bits ≡ 8) where
  -- A range of well-formed blocks that start at the seventeenth byte survives a restart behind an
  -- append: where the filters take eight bytes, the block has room and the key range can be updated,
  -- the append returns, and rebuilding the list from nothing gives the very range that it left.
  pub rebuild-append :
      (icmp : Comparator) (pool : Pool) (cs : List Block) (c : Block) (start end : Bytes)
      → IsStored 8 t.nv 16 cs
      → t.blklist ≡ blocks_at 8 16 cs
      → length c.bloom ≡ 8
      → t.nv.data_len + 16 + length c.body ≤ t.nv.buf.size
      → CanUpdate icmp pool t.nv start end
      → Returns
          (append options icmp pool t c.bloom c.body start end)
          λ r. rebuild_blk_list options (record r { blklist = [] }) ≡ ok r
  rebuild-append icmp pool cs c start end s listed f room can =
      let (r, run, (stored, blocks)) =
        append-IsStored icmp pool options t 16 cs c start end bits s listed f room can in
      (
        r,
        run,
        rebuild_blk_list-blocks_at options (record r { blklist = [] }) (cs ++ c ∷ [])
              (subst (λ (k : ℕ). IsStored k r.nv 16 (cs ++ c ∷ [])) (sym bits) stored)
            ∙ ap (λ (l : List ChunkBlk). ok (record r { blklist = l }))
                (subst (λ (k : ℕ). blocks_at k 16 (cs ++ c ∷ []) ≡ r.blklist) (sym bits)
                  (sym blocks)),
      )

  module _ (sizeof_p_buf : ℕ) (icmp : Comparator) (target : Bytes) where
    IsChunk-last :
        (cs : List Chunk) (c : Chunk)
        → ((i : ℕ) (d : Chunk) → get_elem? cs i ≡ some d → IsChunk sizeof_p_buf icmp d)
        → IsChunk sizeof_p_buf icmp c
        → (i : ℕ) (d : Chunk) → get_elem? (cs ++ c ∷ []) i ≡ some d
        → IsChunk sizeof_p_buf icmp d
    IsChunk-last [] c old new zero d e = let same : c ≡ d = cc in rw (← same) new
    IsChunk-last [] c old new (suc i) d e = absurd (cc)
    IsChunk-last (x ∷ cs) c old new zero d e = old zero d e
    IsChunk-last (x ∷ cs) c old new (suc i) d e =
        IsChunk-last cs c (λ j y h. old (suc j) y h) new i d e

    -- The range behind an append, and how much of the buffer it uses.
    pub record IsGrown (base : ℕ) (cs : List Chunk) (c : Chunk) (r : FixedRangeTab) : Type 0 where
      pub range : IsRange sizeof_p_buf options icmp r target base (cs ++ c ∷ [])
      pub used : r.nv.data_len ≡ t.nv.data_len + 16 + length (chunk_bytes c.pairs c.gap)
      pub same_size : r.nv.buf.size ≡ t.nv.buf.size

    pub append_block-IsGrown :
        (base : ℕ) (cs : List Chunk) (c : Chunk)
        → IsRange sizeof_p_buf options icmp t target base cs
        → IsChunk sizeof_p_buf icmp c
        → length c.bloom ≡ 8
        → t.nv.data_len + 16 + length (chunk_bytes c.pairs c.gap) ≤ t.nv.buf.size
        → Returns (append_block options t c.bloom (chunk_bytes c.pairs c.gap)) (IsGrown base cs c)
    append_block-IsGrown base cs c range chunk f room =
        let bs = map block_of cs in
        let all = map-append block_of cs (c ∷ []) in
        let (r, run, (stored, blocks)) =
          append_block-IsStored options t base bs (block_of c) bits
            (subst (λ (k : ℕ). IsStored k t.nv base bs) bits range.stored)
            (subst (λ (k : ℕ). t.blklist ≡ blocks_at k base bs) bits range.listed) f room in
        let same =
          ok_inj (appended options t (block_of c)) r
            (sym (append_block-ok options t (block_of c) f room) ∙ run) in
        (
          r,
          run,
          record {
            range = record {
              stored = rw all (
                  subst (λ (k : ℕ). IsStored k r.nv base (bs ++ block_of c ∷ [])) (sym bits)
                    stored);
              listed = rw all (
                  subst (λ (k : ℕ). r.blklist ≡ blocks_at k base (bs ++ block_of c ∷ [])) (sym bits)
                    blocks);
              chunks = IsChunk-last cs c range.chunks chunk;
            };
            used = rw (← same) (omega arith);
            same_size = rw (← same) refl;
          },
        )

    -- Read what was written: where the filters take eight bytes, the block has room and the key range
    -- can be updated, appending a well-formed chunk to a range of well-formed chunks returns, and then
    -- `Get` finds a key of that chunk with its value, if the new filter lets the key through and the
    -- new chunk starts at or before it.
    pub get-append :
        (pool : Pool) (base : ℕ) (cs : List Chunk) (c : Chunk) (v out start end : Bytes)
        → IsRange sizeof_p_buf options icmp t target base cs
        → IsChunk sizeof_p_buf icmp c
        → length c.bloom ≡ 8
        → t.nv.data_len + 16 + length (chunk_bytes c.pairs c.gap) ≤ t.nv.buf.size
        → Hits options icmp target c v
        → CanUpdate icmp pool t.nv start end
        → Returns
            (append options icmp pool t c.bloom (chunk_bytes c.pairs c.gap) start end)
            λ r. get sizeof_p_buf options icmp r target out ≡ ok (ok_status, v)
    get-append pool base cs c v out start end range chunk f room h can =
        let n = length cs in
        let (r, run, grown) = append_block-IsGrown base cs c range chunk f room in
        (
          r,
          append-ok icmp pool options t r c.bloom (chunk_bytes c.pairs c.gap) start end run can,
          get-newest sizeof_p_buf options icmp r target base (cs ++ c ∷ []) grown.range n c v out
              (get_elem?-append_last cs c) h
              (λ i d later e.
                absurd
                  (omega (arith, lt_of_get_elem? (cs ++ c ∷ []) i e, length-append cs (c ∷ [])))),
        )
