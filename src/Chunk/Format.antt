-- ===== src/Chunk/Format.antt =====
-- The bytes of a chunk, as the comment in persistent_chunk_iterator.cc draws them: the pairs, the
-- offset of each pair, and the number of pairs. `gap` is what stands between the offsets and the
-- number of pairs; the drawn format has none.
use rocksdb_pmdk.Base.{ℕ, ◌+◌, ◌≡◌, List, [], ◌∷◌, ◌++◌, Bytes, length, ok}
use rocksdb_pmdk.Memory.{Buffer, Fixed64, load}
use rocksdb_pmdk.Chunk.Iterator.{Dat}

abbrev pub Pair : Type 0
Pair = Bytes × Bytes

module _ ⦃fixed : Fixed64⦄ where
  -- `keysize | key | valsize | val`
  abbrev pub pair_bytes : Pair → Bytes
  pair_bytes p = fixed.encode (length p.0) ++ (p.0 ++ (fixed.encode (length p.1) ++ p.1))

  abbrev pub pairs_bytes : List Pair → Bytes
  pairs_bytes [] = []
  pairs_bytes (p ∷ ps) = pair_bytes p ++ pairs_bytes ps

  abbrev pub offsets_bytes : ℕ → List Pair → Bytes
  offsets_bytes at [] = []
  offsets_bytes at (p ∷ ps) = fixed.encode at ++ offsets_bytes (at + length (pair_bytes p)) ps

  abbrev pub chunk_bytes : List Pair → Bytes → Bytes
  chunk_bytes ps gap = pairs_bytes ps ++ (offsets_bytes 0 ps ++ (gap ++ fixed.encode (length ps)))

-- The two vectors of an iterator read as the pairs.
abbrev pub Views : Buffer → List Dat → List Dat → List Pair → Type 0
Views b [] [] [] = Unit
Views b (k ∷ ks) (v ∷ vs) (p ∷ ps) =
    (load b k.buf k.size ≡ ok p.0) × (load b v.buf v.size ≡ ok p.1) × Views b ks vs ps
Views b _ _ _ = ⊥
