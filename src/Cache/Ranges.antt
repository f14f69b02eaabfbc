-- ===== src/Cache/Ranges.antt =====
-- `prefix2range` of the cache, from prefixes to ranges.
use rocksdb_pmdk.Base.{
  ◌≡◌, refl, ◌∙◌, ◌≢◌, true, Bool-cases, inl, inr, Option, none, some, List, [], ◌∷◌, Bytes,
  if◌then◌else◌, arith,
}
use rocksdb_pmdk.HashMap.Heap.{Ptr}
use rocksdb_pmdk.HashMap.Nodes.{eq_bytes}
use rocksdb_pmdk.HashMap.Nodes.Lookup.{eq_bytes_refl}
use rocksdb_pmdk.RangeTab.State.{FixedRangeTab}

-- A range in memory and the node of its table.
pub record Range : Type 0 where
  pub node : Ptr
  pub tab : FixedRangeTab

abbrev pub RangeList : Type 0
RangeList = List (Bytes × Range)

unfoldable pub find : Bytes → RangeList → Option Range
find prefix [] = none
find prefix ((p, range) ∷ rs) =
    let rest = find prefix rs in if eq_bytes p prefix then some range else rest

-- The entry of the prefix, replaced or new.
unfoldable pub assign : Bytes → Range → RangeList → RangeList
assign prefix range [] = (prefix, range) ∷ []
assign prefix range ((p, r) ∷ rs) =
    let rest = assign prefix range rs in
    if eq_bytes p prefix then (p, range) ∷ rs else (p, r) ∷ rest

pub eq_bytes-eq : (xs ys : Bytes) → eq_bytes xs ys ≡ true → xs ≡ ys
eq_bytes-eq [] [] e = refl
eq_bytes-eq (x ∷ xs) (y ∷ ys) e = ground (arith, eq_bytes-eq xs ys)
eq_bytes-eq xs ys e = ground arith

pub find-assign :
    (prefix : Bytes) (range : Range) (rs : RangeList)
    → find prefix (assign prefix range rs) ≡ some range
unfolding find assign
find-assign prefix range [] = rw (eq_bytes_refl prefix) refl
find-assign prefix range ((p, r) ∷ rs) = ground (arith, find-assign prefix range rs)

pub find-assign_other :
    (prefix other : Bytes) (range : Range) (rs : RangeList)
    → other ≢ prefix
    → find other (assign prefix range rs) ≡ find other rs
unfolding find assign
find-assign_other prefix other range [] ne = ground (arith, eq_bytes-eq prefix other)
find-assign_other prefix other range ((p, r) ∷ rs) ne =
    ground
      (arith, find-assign_other prefix other range rs ne, eq_bytes-eq p prefix, eq_bytes-eq p other)

-- No prefix has two entries.
abbrev pub AreDistinct : RangeList → Type 0
AreDistinct [] = Unit
AreDistinct ((p, r) ∷ rs) = (find p rs ≡ none) × AreDistinct rs

pub assign-AreDistinct :
    (prefix : Bytes) (range : Range) (rs : RangeList)
    → AreDistinct rs
    → AreDistinct (assign prefix range rs)
unfolding find assign
assign-AreDistinct prefix range [] d = (refl, tt)
assign-AreDistinct prefix range ((p, r) ∷ rs) (gone, d) = elim (Bool-cases (eq_bytes p prefix)) [
  | inl same ↦ rw same (gone, d)
  | inr other ↦
      let far : p ≢ prefix = λ e. absurd (ground (arith, eq_bytes_refl prefix)) in
      rw other
        (find-assign_other prefix p range rs far ∙ gone, assign-AreDistinct prefix range rs d)
]

-- An entry of the tail is found behind the head.
pub find-tail :
    (p q : Bytes) (r x : Range) (rs : RangeList)
    → find p rs ≡ none
    → find q rs ≡ some x
    → find q ((p, r) ∷ rs) ≡ some x
unfolding find
find-tail p q r x rs gone found = ground (arith, eq_bytes-eq p q)

pub find-head : (p : Bytes) (r : Range) (rs : RangeList) → find p ((p, r) ∷ rs) ≡ some r
unfolding find
find-head p r rs = rw (eq_bytes_refl p) refl
