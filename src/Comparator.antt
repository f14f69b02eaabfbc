-- ===== src/Comparator.antt =====
-- rocksdb's `InternalKeyComparator`, which is not code of this repository: a three-way comparison of
-- keys that is a total order up to the keys that it finds equal.
use rocksdb_pmdk.Base.{◌≡◌, Bytes, Ordering}

pub record Comparator : Type 0 where
  pub cmp : Bytes → Bytes → Ordering
  pub cmp_refl : (a : Bytes) → cmp a a ≡ Ordering.eq
  pub cmp_flip : (a b : Bytes) → cmp a b ≡ Ordering.lt → cmp b a ≡ Ordering.gt
  pub cmp_flip_gt : (a b : Bytes) → cmp a b ≡ Ordering.gt → cmp b a ≡ Ordering.lt
  pub cmp_trans :
      (a b c : Bytes) → cmp a b ≡ Ordering.lt → cmp b c ≡ Ordering.lt → cmp a c ≡ Ordering.lt
  pub cmp_eq_left : (a b c : Bytes) → cmp a b ≡ Ordering.eq → cmp a c ≡ cmp b c
