-- ===== src/Tests/Fixtures.antt =====
-- Concrete versions of the parameters: little-endian words, and keys in the order of their bytes.
use Prim.Native.Nat.{Ordering}
use rocksdb_pmdk.Base.{
  ℕ, zero, suc, ◌+◌, ◌*◌, ◌/◌, ◌%◌, ◌<◌, ◌^◌, ◌≡◌, refl, Option, none, some, [], ◌∷◌, Bytes, length,
  compare, arith, ltb, if◌then◌else◌,
}
use rocksdb_pmdk.Comparator.{Comparator}
use rocksdb_pmdk.Memory.{Buffer, Fixed64}
use rocksdb_pmdk.NvRangeTab.{Pool}

unfoldable pub le_bytes : ℕ → ℕ → Bytes
le_bytes zero n = []
le_bytes (suc k) n = n % 256 ∷ le_bytes k (n / 256)

unfoldable pub le_value : Bytes → ℕ
le_value [] = 0
le_value (x ∷ xs) = x + 256 * le_value xs

pub length-le_bytes : (n : ℕ) → length (le_bytes 8 n) ≡ 8
unfolding le_bytes
length-le_bytes n = refl

pub le_value-le_bytes : (n : ℕ) → n < 2 ^ 64 → le_value (le_bytes 8 n) ≡ n
unfolding le_bytes le_value
le_value-le_bytes n h = omega arith

instance abbrev pub little_endian : Fixed64
little_endian = record {
  encode = le_bytes 8;
  decode = le_value;
  length-encode = length-le_bytes;
  decode-encode = le_value-le_bytes;
}

-- `BytewiseComparator`.
unfoldable pub lex : Bytes → Bytes → Ordering
lex [] [] = Ordering.eq
lex [] (y ∷ ys) = Ordering.lt
lex (x ∷ xs) [] = Ordering.gt
lex (x ∷ xs) (y ∷ ys) =
    let rest = lex xs ys in
    elim (compare x y) [
      | Ordering.lt ↦ Ordering.lt
      | Ordering.gt ↦ Ordering.gt
      | Ordering.eq ↦ rest
    ]

pub lex_refl : (a : Bytes) → lex a a ≡ Ordering.eq
unfolding lex
lex_refl [] = refl
lex_refl (x ∷ xs) = ground (arith, lex_refl xs)

pub lex_flip : (a b : Bytes) → lex a b ≡ Ordering.lt → lex b a ≡ Ordering.gt
unfolding lex
lex_flip [] [] h = cc
lex_flip [] (y ∷ ys) h = refl
lex_flip (x ∷ xs) [] h = cc
lex_flip (x ∷ xs) (y ∷ ys) h = ground (arith, lex_flip xs ys)

pub lex_flip_gt : (a b : Bytes) → lex a b ≡ Ordering.gt → lex b a ≡ Ordering.lt
unfolding lex
lex_flip_gt [] [] h = cc
lex_flip_gt [] (y ∷ ys) h = cc
lex_flip_gt (x ∷ xs) [] h = refl
lex_flip_gt (x ∷ xs) (y ∷ ys) h = ground (arith, lex_flip_gt xs ys)

pub lex_trans :
    (a b c : Bytes) → lex a b ≡ Ordering.lt → lex b c ≡ Ordering.lt → lex a c ≡ Ordering.lt
unfolding lex
lex_trans [] [] c h k = cc
lex_trans [] (y ∷ ys) [] h k = cc
lex_trans [] (y ∷ ys) (z ∷ zs) h k = refl
lex_trans (x ∷ xs) [] c h k = cc
lex_trans (x ∷ xs) (y ∷ ys) [] h k = cc
lex_trans (x ∷ xs) (y ∷ ys) (z ∷ zs) h k = ground (arith, lex_trans xs ys zs)

pub lex_eq_left : (a b c : Bytes) → lex a b ≡ Ordering.eq → lex a c ≡ lex b c
unfolding lex
lex_eq_left [] [] c h = refl
lex_eq_left [] (y ∷ ys) c h = cc
lex_eq_left (x ∷ xs) [] c h = cc
lex_eq_left (x ∷ xs) (y ∷ ys) [] h = refl
lex_eq_left (x ∷ xs) (y ∷ ys) (z ∷ zs) h = ground (arith, lex_eq_left xs ys zs)

abbrev pub bytewise : Comparator
bytewise = record {
  cmp = lex;
  cmp_refl = lex_refl;
  cmp_flip = lex_flip;
  cmp_flip_gt = lex_flip_gt;
  cmp_trans = lex_trans;
  cmp_eq_left = lex_eq_left;
}

-- A pool with a kilobyte of room for each array.
abbrev pub give : ℕ → Option Buffer
give n = if ltb n 1025 then some (record { cells = λ a. 0; size = n }) else none

pub give-size : (n : ℕ) (b : Buffer) → give n ≡ some b → b.size ≡ n
give-size n b h = ground arith

abbrev pub kilobyte : Pool
kilobyte = record { allocate = give; allocate-size = give-size }
