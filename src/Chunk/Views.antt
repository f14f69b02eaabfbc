-- ===== src/Chunk/Views.antt =====
-- The slices behind the two vectors of an iterator.
use rocksdb_pmdk.Base.{◌≡◌, refl, some, List, [], ◌∷◌, length, get_elem?, ok, zero, suc, ℕ, arith}
use rocksdb_pmdk.Chunk.Format.{Pair, Views}
use rocksdb_pmdk.Chunk.Iterator.{Dat, slice_at}
use rocksdb_pmdk.Memory.{Buffer}

module _ (b : Buffer) where
  pub Views-length : (ks vs : List Dat) (ps : List Pair) → Views b ks vs ps → length ks ≡ length ps
  Views-length [] [] [] h = refl
  Views-length (k ∷ ks) (v ∷ vs) (p ∷ ps) h = omega (arith, Views-length ks vs ps h.2)
  Views-length ks vs ps h = ground arith

  pub Views-slice_at :
      (ks vs : List Dat) (ps : List Pair) (i : ℕ) (p : Pair)
      → Views b ks vs ps
      → get_elem? ps i ≡ some p
      → (slice_at b ks i ≡ ok p.0) × (slice_at b vs i ≡ ok p.1)
  unfolding slice_at
  Views-slice_at (k ∷ ks) (v ∷ vs) (q ∷ ps) zero p h e = ground arith
  Views-slice_at (k ∷ ks) (v ∷ vs) (q ∷ ps) (suc i) p h e = Views-slice_at ks vs ps i p h.2 e
  Views-slice_at ks vs ps i p h e = ground arith
