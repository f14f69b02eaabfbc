-- ===== src/RangeTab/Blocks.antt =====
-- What the buffer of a range is meant to hold: one block after the other, each a filter, the length
-- of the chunk, and the chunk.
use rocksdb_pmdk.Base.{
  ℕ, zero, suc, ◌*◌, some, get_elem?, ◌+◌, ◌<◌, ◌≤◌, ◌^◌, ◌≡◌, refl, ap, List, [], ◌∷◌, ◌++◌, Bytes,
  length, length-append, All, arith,
}
use mathlib.Core.List.{append_assoc, append-nil}
use rocksdb_pmdk.ChunkBlk.{ChunkBlk}
use rocksdb_pmdk.Memory.{Fixed64, Holds, Holds-at, Holds-left, Holds-right}
use rocksdb_pmdk.NvRangeTab.{NvRangeTab}

pub record Block : Type 0 where
  pub bloom : Bytes
  pub body : Bytes

-- The entry of the block list for a block at `base`, and those of the blocks behind it.
abbrev pub blocks_at : (bloom_bits : ℕ) → ℕ → List Block → List ChunkBlk
blocks_at bloom_bits base [] = []
blocks_at bloom_bits base (c ∷ cs) =
    record { bloom_bits = bloom_bits; offset = base; chunk_len = length c.body }
    ∷ blocks_at bloom_bits (base + (bloom_bits + 8 + length c.body)) cs

module _ ⦃fixed : Fixed64⦄ where
  abbrev pub block_bytes : Block → Bytes
  block_bytes c = c.bloom ++ (fixed.encode (length c.body) ++ c.body)

  abbrev pub image : List Block → Bytes
  image [] = []
  image (c ∷ cs) = block_bytes c ++ image cs

  -- From `base` to its length the buffer holds the blocks.
  pub record IsStored (bloom_bits : ℕ) (nv : NvRangeTab) (base : ℕ) (cs : List Block) : Type 0 where
    pub filters : All (λ c. length c.bloom ≡ bloom_bits) cs
    pub holds : Holds nv.buf.cells base (image cs)
    pub ends : base + length (image cs) ≡ nv.data_len
    pub fits : nv.data_len ≤ nv.buf.size
    pub small : nv.buf.size < 2 ^ 64

  pub length-block_bytes : (c : Block) → length (block_bytes c) ≡ length c.bloom + 8 + length c.body
  length-block_bytes c = omega (
    arith,
    length-append c.bloom (fixed.encode (length c.body) ++ c.body),
    length-append (fixed.encode (length c.body)) c.body,
    fixed.length-encode (length c.body),
  )

  pub image-append : (cs ds : List Block) → image (cs ++ ds) ≡ image cs ++ image ds
  image-append [] ds = refl
  image-append (c ∷ cs) ds =
      rw (image-append cs ds, append_assoc (block_bytes c) (image cs) (image ds))

  pub image-last : (cs : List Block) (c : Block) → image (cs ++ c ∷ []) ≡ image cs ++ block_bytes c
  image-last cs c = rw (image-append cs (c ∷ []), append-nil (block_bytes c))

  pub blocks_at-last :
      (bloom_bits base : ℕ) (cs : List Block) (c : Block)
      → All (λ d. length d.bloom ≡ bloom_bits) cs
      → blocks_at bloom_bits base (cs ++ c ∷ [])
        ≡ blocks_at bloom_bits base cs
          ++ record {
            bloom_bits = bloom_bits;
            offset = base + length (image cs);
            chunk_len = length c.body;
          }
            ∷ []
  blocks_at-last bloom_bits base [] c f =
      ap (λ (o : ℕ). record { bloom_bits = bloom_bits; offset = o; chunk_len = length c.body } ∷ [])
        (omega arith)
  blocks_at-last bloom_bits base (d ∷ cs) c f =
      let e : base + (bloom_bits + 8 + length d.body) + length (image cs)
          ≡ base + length (block_bytes d ++ image cs) =
        omega (arith, length-append (block_bytes d) (image cs), length-block_bytes d, f.0) in
      rw (blocks_at-last bloom_bits (base + (bloom_bits + 8 + length d.body)) cs c f.1, e)

  -- The block with the number `i`, behind its entry in the list.
  pub block_at :
      (m : ℕ → ℕ) (bloom_bits base : ℕ) (cs : List Block) (i : ℕ) (c : Block)
      → All (λ d. length d.bloom ≡ bloom_bits) cs
      → Holds m base (image cs)
      → get_elem? cs i ≡ some c
      → (off : ℕ) × (get_elem? (blocks_at bloom_bits base cs) i
          ≡ some (record { bloom_bits = bloom_bits; offset = off; chunk_len = length c.body }))
        × Holds m off (block_bytes c)
        × (off + length (block_bytes c) ≤ base + length (image cs))
        × (length c.bloom ≡ bloom_bits)
  block_at m bloom_bits base [] i c f h e = absurd (cc)
  block_at m bloom_bits base (d ∷ cs) zero c f h e =
      let same : d ≡ c = cc in
      let len = length-append (block_bytes d) (image cs) in
      rw (← same) (base, refl, Holds-left m base (block_bytes d) (image cs) h, omega arith, f.0)
  block_at m bloom_bits base (d ∷ cs) (suc i) c f h e =
      let next = base + (bloom_bits + 8 + length d.body) in
      let len = length-append (block_bytes d) (image cs) in
      let len' = length-block_bytes d in
      let rest =
        Holds-at m _ next (image cs) (omega (arith, f.0))
          (Holds-right m base (block_bytes d) (image cs) h) in
      let (off, got, holds, room, filter) = block_at m bloom_bits next cs i c f.1 rest e in
      (off, got, holds, omega (arith, f.0), filter)

  -- Every block takes more than its entry's eight bytes.
  pub length-le-image : (cs : List Block) → 8 * length cs ≤ length (image cs)
  length-le-image [] = omega arith
  length-le-image (c ∷ cs) =
      omega
        (arith, length-le-image cs, length-append (block_bytes c) (image cs), length-block_bytes c)

pub length-blocks_at :
    (bloom_bits base : ℕ) (cs : List Block) → length (blocks_at bloom_bits base cs) ≡ length cs
length-blocks_at bloom_bits base [] = refl
length-blocks_at bloom_bits base (c ∷ cs) =
    ap suc (length-blocks_at bloom_bits (base + (bloom_bits + 8 + length c.body)) cs)
