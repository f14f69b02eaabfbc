-- ===== src/Memory/Defs.antt =====
-- Loads and stores with their bounds.
use rocksdb_pmdk.Base.{
  ℕ, zero, suc, ◌+◌, ◌<◌, ◌^◌, ◌≡◌, [], ◌∷◌, Bytes, length, leb, ◌==◌, if◌then◌else◌, Run, ok,
  fault, out_of_bounds, ◌>>=◌,
}

pub record Buffer : Type 0 where
  pub cells : ℕ → ℕ
  pub size : ℕ

-- `EncodeFixed64` and `DecodeFixed64`: eight bytes, and decoding undoes encoding.
pub record Fixed64 : Type 0 where
  pub encode : ℕ → Bytes
  pub decode : Bytes → ℕ
  pub length-encode : (n : ℕ) → length (encode n) ≡ 8
  pub decode-encode : (n : ℕ) → n < 2 ^ 64 → decode (encode n) ≡ n

unfoldable pub read : (ℕ → ℕ) → ℕ → ℕ → Bytes
read m a zero = []
read m a (suc n) = m a ∷ read m (suc a) n

unfoldable pub write : (ℕ → ℕ) → ℕ → Bytes → ℕ → ℕ
write m a [] = m
write m a (x ∷ xs) = λ b. if b == a then x else write m (suc a) xs b

-- `memcpy` out of an array.
unfoldable pub load : Buffer → ℕ → ℕ → Run Bytes
load b a n = if leb (a + n) b.size then ok (read b.cells a n) else fault out_of_bounds

-- `memcpy` into an array.
unfoldable pub store : Buffer → ℕ → Bytes → Run Buffer
store b a xs =
    if leb (a + length xs) b.size
    then ok (record b { cells = write b.cells a xs })
    else fault out_of_bounds

module _ ⦃fixed : Fixed64⦄ where
  unfoldable pub load64 : Buffer → ℕ → Run ℕ
  load64 b a = load b a 8 >>= λ xs. ok (fixed.decode xs)

  unfoldable pub store64 : Buffer → ℕ → ℕ → Run Buffer
  store64 b a n = store b a (fixed.encode n)
