-- ===== src/RangeTab/Search/Fails.antt =====
-- Below the first key of the chunk, and in an empty chunk, `right` wraps and the next access throws.
use Prim.Native.Nat.{Ordering}
use native.Mathlib.Decide.{dec_lt}
use rocksdb_pmdk.Base.{
  ℕ, zero, suc, ◌+◌, ◌-◌, ◌/◌, ◌<◌, ◌^◌, ◌≡◌, refl, ◌∙◌, some, List, [], ◌∷◌, Bytes, length,
  get_elem?, get_elem?-lt, get_elem?-none, fault, out_of_range, arith,
}
use rocksdb_pmdk.Base.Words.{sub64}
use rocksdb_pmdk.Chunk.Format.{Pair, Views}
use rocksdb_pmdk.Chunk.Views.{Views-length, Views-slice_at}
use rocksdb_pmdk.Chunk.Iterator.{PersistentChunkIterator, count, seek_to}
use rocksdb_pmdk.Comparator.{Comparator}
use rocksdb_pmdk.Memory.{Buffer}
use rocksdb_pmdk.RangeTab.Search.{search_loop, search_in_chunk}
use rocksdb_pmdk.RangeTab.Search.Sorted.{IsSorted, IsSorted-lt, cmp-gt_lt}
use rocksdb_pmdk.RangeTab.Search.Steps.{middle-eq, search_loop-throws, search_loop-gt}

-- There is no first key, or it is above the target.
abbrev pub StartsAbove : Comparator → Bytes → List Pair → Type 0
StartsAbove icmp target [] = Unit
StartsAbove icmp target (p ∷ ps) = icmp.cmp p.0 target ≡ Ordering.gt

all_above :
    (icmp : Comparator) (target : Bytes) (ps : List Pair) (i : ℕ) (p : Pair)
    → IsSorted icmp ps
    → StartsAbove icmp target ps
    → get_elem? ps i ≡ some p
    → icmp.cmp p.0 target ≡ Ordering.gt
all_above icmp target [] i p sorted starts e = cc
all_above icmp target (q ∷ ps) zero p sorted starts e = let same : p ≡ q = cc in rw same starts
all_above icmp target (q ∷ ps) (suc i) p sorted starts e =
    cmp-gt_lt icmp q.0 p.0 target starts
      (IsSorted-lt icmp (q ∷ ps) 0 (suc i) q p sorted (omega arith) refl e)

module _ (icmp : Comparator) (b : Buffer) (target : Bytes) (ps : List Pair)
    (sorted : IsSorted icmp ps) (few : length ps < 2 ^ 63) where
  -- With `right` wrapped the middle is beyond the last pair.
  wrapped :
      (fuel : ℕ) (it : PersistentChunkIterator) (out : Bytes)
      → Views b it.v_key it.v_value ps
      → 0 < fuel
      → search_loop icmp b target fuel it 0 (2 ^ 64 - 1) out ≡ fault out_of_range
  wrapped zero it out v pos = absurd (omega arith)
  wrapped (suc fuel) it out v pos =
      search_loop-throws icmp b target fuel it 0 (2 ^ 64 - 1) out (2 ^ 63 - 1) (omega arith) refl (
        get_elem?-none it.v_key (2 ^ 63 - 1)
          (omega (arith, Views-length b it.v_key it.v_value ps v)))

  search_loop-fault :
      (fuel : ℕ) (it : PersistentChunkIterator) (right : ℕ) (out : Bytes)
      → StartsAbove icmp target ps
      → Views b it.v_key it.v_value ps
      → right < length ps
      → suc right < fuel
      → search_loop icmp b target fuel it 0 right out ≡ fault out_of_range
  unfolding seek_to
  search_loop-fault zero it right out starts v small enough = absurd (omega arith)
  search_loop-fault (suc fuel) it right out starts v small enough =
      let m = right / 2 in
      let (p, e) = get_elem?-lt ps m (omega arith) in
      let step =
        search_loop-gt icmp b target fuel it 0 right out m (omega arith)
          (middle-eq 0 right (omega arith) (omega arith) ∙ omega arith) p.0
          (Views-slice_at b it.v_key it.v_value ps m p v e).0
          (all_above icmp target ps m p sorted starts e) in
      elim (dec_lt 0 m) [
        | yes pos ↦
            let next : sub64 m 1 ≡ m - 1 = omega arith in
            rw (step, next)
              (search_loop-fault fuel (seek_to it m) (m - 1) out starts v (omega arith)
                (omega arith))
        | no none_left ↦
            let next : sub64 m 1 ≡ 2 ^ 64 - 1 = omega arith in
            rw (step, next) (wrapped fuel (seek_to it m) out v (omega arith))
      ]

-- On a sorted chunk of fewer than 2 ^ 63 pairs that is empty or whose first key is above the
-- target, searchInChunk throws std::out_of_range.
pub search_in_chunk-throws :
    (icmp : Comparator) (b : Buffer) (target : Bytes) (ps : List Pair)
    (it : PersistentChunkIterator) (out : Bytes)
    → IsSorted icmp ps
    → length ps < 2 ^ 63
    → StartsAbove icmp target ps
    → Views b it.v_key it.v_value ps
    → search_in_chunk icmp b target it out ≡ fault out_of_range
unfolding search_in_chunk count
search_in_chunk-throws icmp b target ps it out sorted few starts v =
    let n = length ps in
    let len = Views-length b it.v_key it.v_value ps v in
    elim (dec_lt 0 n) [
      | yes pos ↦
          let last : sub64 n 1 ≡ n - 1 = omega arith in
          rw (len, last)
            (search_loop-fault icmp b target ps sorted few (n + 2) it (n - 1) out starts v
              (omega arith) (omega arith))
      | no empty ↦
          let last : sub64 n 1 ≡ 2 ^ 64 - 1 = omega arith in
          rw (len, last) (wrapped icmp b target ps sorted few (n + 2) it out v (omega arith))
    ]
