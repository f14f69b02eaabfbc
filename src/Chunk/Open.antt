-- ===== src/Chunk/Open.antt =====
-- The constructor of the iterator finds the pairs of a well-formed chunk.
use rocksdb_pmdk.Base.{
  ℕ, ◌+◌, ◌-◌, ◌*◌, ◌<◌, ◌≤◌, ◌^◌, ◌≡◌, refl, List, [], ◌∷◌, ◌++◌, Bytes, length, length-append, ok,
  arith, Returns,
}
use rocksdb_pmdk.Base.Words.{add64, sub64, mul64}
use rocksdb_pmdk.Memory.{
  Buffer, Fixed64, load, load64, Holds, Holds-at, Holds-left, Holds-right, load-Holds, load64-Holds,
}
use rocksdb_pmdk.Chunk.Iterator.{Dat, read_pair, read_pairs, open_chunk}
use rocksdb_pmdk.Chunk.Format.{Pair, pair_bytes, pairs_bytes, offsets_bytes, chunk_bytes, Views}

module _ ⦃fixed : Fixed64⦄ where
  length-pair_bytes : (p : Pair) → length (pair_bytes p) ≡ 16 + length p.0 + length p.1
  length-pair_bytes p =
      rw
        (
          length-append (fixed.encode (length p.0)) _,
          length-append p.0 _,
          length-append (fixed.encode (length p.1)) p.1,
        )
        (omega (arith, fixed.length-encode (length p.0), fixed.length-encode (length p.1)))

  pub length-offsets_bytes :
      (at : ℕ) (ps : List Pair) → length (offsets_bytes at ps) ≡ 8 * length ps
  length-offsets_bytes at [] = omega arith
  length-offsets_bytes at (p ∷ ps) =
      rw (length-append (fixed.encode at) _) (
        omega (arith, fixed.length-encode at, length-offsets_bytes (at + length (pair_bytes p)) ps))

module _ ⦃fixed : Fixed64⦄ (b : Buffer) (small : b.size < 2 ^ 64) (start : ℕ) where
  -- One round of the loop.
  read_pair-Holds :
      (at meta : ℕ) (p : Pair)
      → Holds b.cells meta (fixed.encode at)
      → meta + 8 ≤ b.size
      → Holds b.cells (start + at) (pair_bytes p)
      → start + at + length (pair_bytes p) ≤ b.size
      → Returns
          (read_pair b start meta)
          λ r. (load b r.0.buf r.0.size ≡ ok p.0) × (load b r.1.buf r.1.size ≡ ok p.1)
  unfolding read_pair
  read_pair-Holds at meta p h fits k room =
      let bound = length-pair_bytes p in
      let a = start + at in
      let n = length p.0 in
      let m = length p.1 in
      let h₁ = Holds-left b.cells a (fixed.encode n) _ k in
      let k₁ =
        Holds-at b.cells _ (a + 8) _ (omega (arith, fixed.length-encode n))
          (Holds-right b.cells a (fixed.encode n) _ k) in
      let h₂ = Holds-left b.cells (a + 8) p.0 _ k₁ in
      let k₂ = Holds-right b.cells (a + 8) p.0 _ k₁ in
      let h₃ = Holds-left b.cells (a + 8 + n) (fixed.encode m) _ k₂ in
      let h₄ =
        Holds-at b.cells _ (a + 8 + n + 8) _ (omega (arith, fixed.length-encode m))
          (Holds-right b.cells (a + 8 + n) (fixed.encode m) _ k₂) in
      let e₀ : add64 start at ≡ a = omega arith in
      let e₁ : add64 a (add64 8 n) ≡ a + 8 + n = omega arith in
      let e₂ : add64 a 8 ≡ a + 8 = omega arith in
      let e₃ : add64 (a + 8 + n) 8 ≡ a + 8 + n + 8 = omega arith in
      (
        (record { size = n; buf = a + 8 }, record { size = m; buf = a + 8 + n + 8 }),
        rw (
          load64-Holds b meta at (omega arith) fits h,
          e₀,
          load64-Holds b a n (omega arith) (omega arith) h₁,
          e₁,
          load64-Holds b (a + 8 + n) m (omega arith) (omega arith) h₃,
          e₂,
          e₃,
        ),
        (
          load-Holds b (a + 8) p.0 (omega arith) h₂,
          load-Holds b (a + 8 + n + 8) p.1 (omega arith) h₄,
        ),
      )

  -- The loop, for the pairs that are left.
  read_pairs-Views :
      (ps : List Pair) (at meta : ℕ)
      → Holds b.cells meta (offsets_bytes at ps)
      → meta + 8 * length ps ≤ b.size
      → Holds b.cells (start + at) (pairs_bytes ps)
      → start + at + length (pairs_bytes ps) ≤ b.size
      → Returns (read_pairs (length ps) b start meta) λ r. Views b r.0 r.1 ps
  unfolding read_pairs
  read_pairs-Views [] at meta h fits k room = (([], []), refl, tt)
  read_pairs-Views (p ∷ ps) at meta h fits k room =
      let len = length-append (pair_bytes p) (pairs_bytes ps) in
      let (r, run, views) =
        read_pair-Holds at meta p (Holds-left b.cells meta (fixed.encode at) _ h) (omega arith)
          (Holds-left b.cells (start + at) (pair_bytes p) _ k) (omega arith) in
      let (rs, runs, rest) =
        read_pairs-Views ps (at + length (pair_bytes p)) (meta + 8)
          (Holds-at b.cells _ (meta + 8) _ (omega (arith, fixed.length-encode at))
            (Holds-right b.cells meta (fixed.encode at) _ h))
          (omega arith)
          (Holds-at b.cells _ (start + (at + length (pair_bytes p))) _ (omega arith)
            (Holds-right b.cells (start + at) (pair_bytes p) _ k))
          (omega arith) in
      let e : add64 meta 8 ≡ meta + 8 = omega arith in
      ((r.0 ∷ rs.0, r.1 ∷ rs.1), rw (run, e, runs), (views.0, views.1, rest))

  open_chunk_lem :
      (sizeof_p_buf size n a m : ℕ) (r : List Dat × List Dat)
      → sub64 (add64 start size) 8 ≡ a
      → load64 b a ≡ ok n
      → sub64 a (mul64 sizeof_p_buf n) ≡ m
      → read_pairs n b start m ≡ ok r
      → open_chunk sizeof_p_buf b start size
        ≡ ok (record { data_ = start; v_key = r.0; v_value = r.1; current = 0 })
  unfolding open_chunk
  open_chunk_lem sizeof_p_buf size n a m r e₁ e₂ e₃ e₄ = rw (e₁, e₂, e₃, e₄)

  -- On a chunk in the drawn format, with a gap of `(sizeof_p_buf - 8) * n` bytes before the number
  -- `n` of pairs, in a buffer of fewer than 2 ^ 64 bytes, the constructor returns, and its two
  -- vectors read as the pairs, in order.
  pub open_chunk-Views :
      (sizeof_p_buf : ℕ) (ps : List Pair) (gap : Bytes)
      → 8 * length ps + length gap ≡ sizeof_p_buf * length ps
      → Holds b.cells start (chunk_bytes ps gap)
      → start + length (chunk_bytes ps gap) ≤ b.size
      → Returns
          (open_chunk sizeof_p_buf b start (length (chunk_bytes ps gap)))
          λ it. Views b it.v_key it.v_value ps
  open_chunk-Views sizeof_p_buf ps gap width h room =
      let n = length ps in
      let d = length (pairs_bytes ps) in
      let size = length (chunk_bytes ps gap) in
      let len₁ = length-append (pairs_bytes ps) (offsets_bytes 0 ps ++ (gap ++ fixed.encode n)) in
      let len₂ = length-append (offsets_bytes 0 ps) (gap ++ fixed.encode n) in
      let len₃ = length-append gap (fixed.encode n) in
      let len₄ = length-offsets_bytes 0 ps in
      let len₅ = fixed.length-encode n in
      let k₁ = Holds-right b.cells start (pairs_bytes ps) _ h in
      let k₂ = Holds-right b.cells (start + d) (offsets_bytes 0 ps) _ k₁ in
      let k₃ =
        Holds-at b.cells _ (start + size - 8) _ (omega arith)
          (Holds-right b.cells _ gap (fixed.encode n) k₂) in
      let e₁ : sub64 (add64 start size) 8 ≡ start + size - 8 = omega arith in
      let e₂ : sub64 (start + size - 8) (mul64 sizeof_p_buf n) ≡ start + d =
        rw (← width) (omega arith) in
      let (r, run, views) =
        read_pairs-Views ps 0 (start + d) (Holds-left b.cells (start + d) (offsets_bytes 0 ps) _ k₁)
          (omega arith)
          (Holds-at b.cells start (start + 0) _ (omega arith)
            (Holds-left b.cells start (pairs_bytes ps) _ h))
          (omega arith) in
      (
        record { data_ = start; v_key = r.0; v_value = r.1; current = 0 },
        open_chunk_lem sizeof_p_buf size n (start + size - 8) (start + d) r e₁
            (load64-Holds b (start + size - 8) n (omega arith) (omega arith) k₃) e₂ run,
        views,
      )
