-- ===== src/RangeTab/Get/Rounds.antt =====
-- One round of the loop of `Get`, for a well-formed chunk.
use rocksdb_pmdk.Base.{
  ℕ, suc, ◌+◌, ◌*◌, ◌<◌, ◌≤◌, ◌^◌, ◌≡◌, ◌⊎◌, inl, inr, true, false, some, none, List, ◌++◌, Bytes,
  length, get_elem?, get_elem?-map, map, Run, ok, arith,
}
use rocksdb_pmdk.Base.Words.{sub64}
use rocksdb_pmdk.Chunk.Format.{Pair, Views, chunk_bytes}
use rocksdb_pmdk.Chunk.Iterator.{PersistentChunkIterator, open_chunk}
use rocksdb_pmdk.Chunk.Open.{open_chunk-Views}
use rocksdb_pmdk.ChunkBlk.{ChunkBlk, get_dat_offset}
use rocksdb_pmdk.Comparator.{Comparator}
use rocksdb_pmdk.Memory.{Fixed64, load, load-Holds, Holds, Holds-at, Holds-left, Holds-right}
use rocksdb_pmdk.RangeTab.{get_loop}
use rocksdb_pmdk.RangeTab.Blocks.{
  Block, blocks_at, block_bytes, IsStored, length-block_bytes, block_at,
}
use rocksdb_pmdk.RangeTab.Search.{Searched, Status, ok_status, not_found, search_in_chunk}
use rocksdb_pmdk.RangeTab.Search.Found.{Answers, search_in_chunk-Answers}
use rocksdb_pmdk.RangeTab.Search.Sorted.{IsSorted, find_pair, StartsBy}
use rocksdb_pmdk.RangeTab.State.{Options, FixedRangeTab}

-- A chunk with its filter, and the bytes that it takes behind the filter.
pub record Chunk : Type 0 where
  pub bloom : Bytes
  pub pairs : List Pair
  pub gap : Bytes

abbrev pub block_of : ⦃fixed : Fixed64⦄ → Chunk → Block
block_of c = record { bloom = c.bloom; body = chunk_bytes c.pairs c.gap }

-- Sorted, of fewer than 2 ^ 63 pairs, and with its offsets where the iterator looks for them.
pub record IsChunk (sizeof_p_buf : ℕ) (icmp : Comparator) (c : Chunk) : Type 0 where
  pub sorted : IsSorted icmp c.pairs
  pub few : length c.pairs < 2 ^ 63
  pub placed : 8 * length c.pairs + length c.gap ≡ sizeof_p_buf * length c.pairs

module _ (options : Options) (icmp : Comparator) (target : Bytes) where
  -- The filter lets the key through, the chunk starts at or before it and has it with value `v`.
  abbrev pub Hits : Chunk → Bytes → Type 0
  Hits c v =
      (options.key_may_match target c.bloom ≡ true)
      × StartsBy icmp target c.pairs
      × (find_pair icmp target c.pairs ≡ some v)

  -- The filter holds the key back; or the chunk starts at or before it and does not have it.
  abbrev pub Passes : Chunk → Type 0
  Passes c =
      (options.key_may_match target c.bloom ≡ false)
      ⊎ ((options.key_may_match target c.bloom ≡ true)
          × StartsBy icmp target c.pairs
          × (find_pair icmp target c.pairs ≡ none))

dat_offset :
    (blk : ChunkBlk)
    → blk.offset + blk.bloom_bits + 8 < 2 ^ 64
    → get_dat_offset blk ≡ blk.offset + blk.bloom_bits + 8
unfolding get_dat_offset
dat_offset blk small = omega arith

-- How the loop goes on behind a search, by the answer.
missed :
    (s : Searched) (out : Bytes) {goal : Run (Status × Bytes)} (next : Bytes → Run (Status × Bytes))
    → Answers none out s
    → goal ≡ (elim s.status [ ok_status ↦ ok (ok_status, s.out) | not_found ↦ next s.out ])
    → goal ≡ next out
missed s out next answer run = ground arith

hit :
    (s : Searched) (v out : Bytes) {goal : Run (Status × Bytes)}
    (next : Bytes → Run (Status × Bytes))
    → Answers (some v) out s
    → goal ≡ (elim s.status [ ok_status ↦ ok (ok_status, s.out) | not_found ↦ next s.out ])
    → goal ≡ ok (ok_status, v)
hit s v out next answer run = ground arith

module _ ⦃fixed : Fixed64⦄ (sizeof_p_buf : ℕ) (options : Options) (icmp : Comparator)
    (t : FixedRangeTab) (target : Bytes) where
  -- What one round reads, for the block `i`.
  pub record Reads (i : ℕ) (c : Chunk) : Type 0 where
    pub blk : ChunkBlk
    pub entry : get_elem? t.blklist i ≡ some blk
    pub filter : load t.nv.buf blk.offset options.chunk_bloom_bits ≡ ok c.bloom
    pub iter : PersistentChunkIterator
    pub opened : open_chunk sizeof_p_buf t.nv.buf (get_dat_offset blk) blk.chunk_len ≡ ok iter
    pub views : Views t.nv.buf iter.v_key iter.v_value c.pairs

  module _ (fuel i : ℕ) (out : Bytes) (c : Chunk) (r : Reads i c) where
    get_loop-filtered :
        options.key_may_match target c.bloom ≡ false
        → get_loop sizeof_p_buf options icmp t target (suc fuel) i out
          ≡ get_loop sizeof_p_buf options icmp t target fuel (sub64 i 1) out
    unfolding get_loop
    get_loop-filtered h = rw (r.entry, r.filter, h)

    get_loop-searched :
        (s : Searched)
        → options.key_may_match target c.bloom ≡ true
        → search_in_chunk icmp t.nv.buf target r.iter out ≡ ok s
        → get_loop sizeof_p_buf options icmp t target (suc fuel) i out ≡ (elim s.status [
          | ok_status ↦ ok (ok_status, s.out)
          | not_found ↦ get_loop sizeof_p_buf options icmp t target fuel (sub64 i 1) s.out
        ])
    unfolding get_loop
    get_loop-searched s h e = rw (r.entry, r.filter, h, r.opened, e)

    pub get_loop-Passes :
        IsChunk sizeof_p_buf icmp c
        → Passes options icmp target c
        → get_loop sizeof_p_buf options icmp t target (suc fuel) i out
          ≡ get_loop sizeof_p_buf options icmp t target fuel (sub64 i 1) out
    get_loop-Passes ok_chunk (inl h) = get_loop-filtered h
    get_loop-Passes ok_chunk (inr (h, starts, absent)) =
        let (s, run, answer) =
          search_in_chunk-Answers icmp t.nv.buf target c.pairs r.iter out ok_chunk.sorted
            ok_chunk.few starts r.views in
        missed s out (λ o. get_loop sizeof_p_buf options icmp t target fuel (sub64 i 1) o)
          (rw absent at answer) (get_loop-searched s h run)

    pub get_loop-Hits :
        (v : Bytes)
        → IsChunk sizeof_p_buf icmp c
        → Hits options icmp target c v
        → get_loop sizeof_p_buf options icmp t target (suc fuel) i out ≡ ok (ok_status, v)
    get_loop-Hits v ok_chunk (h, starts, found) =
        let (s, run, answer) =
          search_in_chunk-Answers icmp t.nv.buf target c.pairs r.iter out ok_chunk.sorted
            ok_chunk.few starts r.views in
        hit s v out (λ o. get_loop sizeof_p_buf options icmp t target fuel (sub64 i 1) o)
          (rw found at answer) (get_loop-searched s h run)

  module _ (i : ℕ) (c : Chunk) (off : ℕ) (small : t.nv.buf.size < 2 ^ 64)
      (entry : get_elem? t.blklist i
        ≡ some (record {
          bloom_bits = options.chunk_bloom_bits;
          offset = off;
          chunk_len = length (chunk_bytes c.pairs c.gap);
        }))
      (h : Holds t.nv.buf.cells off (block_bytes (block_of c)))
      (room : off + length (block_bytes (block_of c)) ≤ t.nv.buf.size)
      (size : length c.bloom ≡ options.chunk_bloom_bits) where
    Reads-opened :
        (it : PersistentChunkIterator)
        → open_chunk sizeof_p_buf t.nv.buf
            (off + options.chunk_bloom_bits + 8)
            (length (chunk_bytes c.pairs c.gap))
          ≡ ok it
        → Views t.nv.buf it.v_key it.v_value c.pairs
        → Reads i c
    Reads-opened it run views =
        let body = chunk_bytes c.pairs c.gap in
        let len = length-block_bytes (block_of c) in
        let b : ChunkBlk = record {
          bloom_bits = options.chunk_bloom_bits;
          offset = off;
          chunk_len = length body;
        } in
        record {
          blk = b;
          entry = entry;
          filter = rw (← size) (
              load-Holds t.nv.buf off c.bloom (omega arith)
                (Holds-left t.nv.buf.cells off c.bloom _ h));
          iter = it;
          opened = rw (dat_offset b (omega arith)) run;
          views = views;
        }

    Reads-block : IsChunk sizeof_p_buf icmp c → Reads i c
    Reads-block ok_chunk =
        let bits = options.chunk_bloom_bits in
        let body = chunk_bytes c.pairs c.gap in
        let len = length-block_bytes (block_of c) in
        let l = fixed.length-encode (length body) in
        let h₂ = Holds-right t.nv.buf.cells off c.bloom (fixed.encode (length body) ++ body) h in
        let h₃ =
          Holds-at t.nv.buf.cells _ (off + bits + 8) body (omega arith)
            (Holds-right t.nv.buf.cells _ (fixed.encode (length body)) body h₂) in
        let (it, run, views) =
          open_chunk-Views t.nv.buf small (off + bits + 8) sizeof_p_buf c.pairs c.gap
            ok_chunk.placed h₃ (omega arith) in
        Reads-opened it run views

  -- A stored chunk can be read.
  pub stored-Reads :
      (base : ℕ) (cs : List Chunk) (i : ℕ) (c : Chunk)
      → IsStored options.chunk_bloom_bits t.nv base (map block_of cs)
      → t.blklist ≡ blocks_at options.chunk_bloom_bits base (map block_of cs)
      → get_elem? cs i ≡ some c
      → IsChunk sizeof_p_buf icmp c
      → Reads i c
  stored-Reads base cs i c s listed e ok_chunk =
      let bits = options.chunk_bloom_bits in
      let (off, got, h, room, size) =
        block_at t.nv.buf.cells bits base (map block_of cs) i (block_of c) s.filters s.holds
          (get_elem?-map block_of cs i c e) in
      Reads-block i c off s.small (rw listed got) h (omega (arith, s.ends, s.fits)) size ok_chunk
