-- ===== src/RangeTab/Search/Found.antt =====
-- The binary search agrees with the plain search, if the first key of the chunk is not above the
-- target.
use Prim.Native.Nat.{Ordering}
use rocksdb_pmdk.Base.{
  ℕ, zero, suc, ◌+◌, ◌-◌, ◌/◌, ◌<◌, ◌≤◌, ◌^◌, ◌≡◌, refl, inl, inr, Option, none, some, List, Bytes,
  length, get_elem?, get_elem?-lt, lt_of_get_elem?, ok, arith, Returns, subst, Ordering-cases,
}
use native.Mathlib.Decide.{dec_lt}
use native.Mathlib.Nat.{le_trans}
use rocksdb_pmdk.Base.Words.{add64, sub64}
use rocksdb_pmdk.Chunk.Format.{Pair, Views}
use rocksdb_pmdk.Chunk.Views.{Views-length, Views-slice_at}
use rocksdb_pmdk.Chunk.Iterator.{PersistentChunkIterator, slice_at, count, seek_to}
use rocksdb_pmdk.Comparator.{Comparator}
use rocksdb_pmdk.Memory.{Buffer}
use rocksdb_pmdk.RangeTab.Search.{Searched, ok_status, not_found, search_loop, search_in_chunk}
use rocksdb_pmdk.RangeTab.Search.Steps.{
  middle-eq, search_loop-over, search_loop-eq, search_loop-lt, search_loop-gt,
}
use rocksdb_pmdk.RangeTab.Search.Sorted.{
  IsSorted, find_pair, StartsBy, StartsBy-length, StartsBy-get_elem?, IsSorted-lt, cmp-lt_eq,
  cmp-gt_lt, find_pair-none, find_pair-some,
}

-- The result of the plain search, as `searchInChunk` reports it: the string changes only if the key
-- is found.
abbrev pub Answers : Option Bytes → Bytes → Searched → Type 0
Answers none out r = (r.status ≡ not_found) × (r.out ≡ out)
Answers (some v) out r = (r.status ≡ ok_status) × (r.out ≡ v)

module _ (icmp : Comparator) (b : Buffer) (target : Bytes) (ps : List Pair)
    (sorted : IsSorted icmp ps) (few : length ps < 2 ^ 63) where
  -- Every pair before `lo` is below the target; every pair from `hi` on is above it.
  abbrev Below : ℕ → Type 0
  Below lo =
      (i : ℕ) (p : Pair) → i < lo → get_elem? ps i ≡ some p → icmp.cmp p.0 target ≡ Ordering.lt

  abbrev Above : ℕ → Type 0
  Above hi =
      (i : ℕ) (p : Pair) → hi ≤ i → get_elem? ps i ≡ some p → icmp.cmp p.0 target ≡ Ordering.gt

  same_pair :
      (i m : ℕ) (p q : Pair) → get_elem? ps m ≡ some p → get_elem? ps i ≡ some q → m ≡ i → p ≡ q
  same_pair i m p q e f same = cc

  Below-suc :
      (m : ℕ) (p : Pair)
      → get_elem? ps m ≡ some p
      → icmp.cmp p.0 target ≡ Ordering.lt
      → Below (suc m)
  Below-suc m p e h i q lt f = elim (dec_lt i m) [
    | yes before ↦ icmp.cmp_trans q.0 p.0 target (IsSorted-lt icmp ps i m q p sorted before f e) h
    | no other ↦ rw (← same_pair i m p q e f (omega arith)) h
  ]

  Above-self :
      (m : ℕ) (p : Pair) → get_elem? ps m ≡ some p → icmp.cmp p.0 target ≡ Ordering.gt → Above m
  Above-self m p e h i q le f = elim (dec_lt m i) [
    | yes after ↦ cmp-gt_lt icmp p.0 q.0 target h (IsSorted-lt icmp ps m i p q sorted after e f)
    | no other ↦ rw (← same_pair i m p q e f (omega arith)) h
  ]

  -- No pair is left between the bounds.
  find-none : (lo : ℕ) → Below lo → Above lo → find_pair icmp target ps ≡ none
  find-none lo below above = find_pair-none icmp target ps λ i p e. elim (dec_lt i lo) [
    | yes before ↦ grind (arith, below i p before e)
    | no other ↦ grind (arith, above i p (omega arith) e)
  ]

  -- The state of the loop: what is known outside the bounds, and the fuel that is left.
  record IsBounded (fuel : ℕ) (it : PersistentChunkIterator) (lo right : ℕ) : Type 0 where
    views : Views b it.v_key it.v_value ps
    below : Below lo
    above : Above (suc right)
    ordered : lo ≤ suc right
    small : right < length ps
    enough : suc right - lo < fuel

  abbrev Searches : ℕ → PersistentChunkIterator → ℕ → ℕ → Bytes → Type 0
  Searches fuel it lo right out =
      Returns (search_loop icmp b target fuel it lo right out)
        (Answers (find_pair icmp target ps) out)

  module _ (fuel : ℕ) (it : PersistentChunkIterator) (lo right : ℕ) (out : Bytes)
      (rest : (it' : PersistentChunkIterator) (lo' right' : ℕ)
        → IsBounded fuel it' lo' right'
        → Searches fuel it' lo' right' out)
      (starts : StartsBy icmp target ps) (bounds : IsBounded (suc fuel) it lo right) (p : Pair)
      (m : ℕ) (lower : lo ≤ m) (upper : m ≤ right) (mid : add64 lo (sub64 right lo / 2) ≡ m)
      (e : get_elem? ps m ≡ some p) where
    reads : (slice_at b it.v_key m ≡ ok p.0) × (slice_at b it.v_value m ≡ ok p.1)
    reads = Views-slice_at b it.v_key it.v_value ps m p bounds.views e

    round-lt : icmp.cmp p.0 target ≡ Ordering.lt → Searches (suc fuel) it lo right out
    unfolding seek_to
    round-lt h =
        let next : add64 m 1 ≡ suc m = omega (arith, bounds.small) in
        let step =
          search_loop-lt icmp b target fuel it lo right out m (le_trans lower upper) mid p.0 reads.0
            h in
        rw (step, next)
          (rest (seek_to it m) (suc m) right (record {
            views = bounds.views;
            below = Below-suc m p e h;
            above = bounds.above;
            ordered = omega (arith, bounds.small);
            small = bounds.small;
            enough = omega (arith, bounds.enough);
          }))

    round-gt : icmp.cmp p.0 target ≡ Ordering.gt → Searches (suc fuel) it lo right out
    unfolding seek_to
    round-gt h =
        let pos = StartsBy-get_elem? icmp target ps m p starts e h in
        let next : sub64 m 1 ≡ m - 1 = omega (arith, bounds.small) in
        let back : m ≡ suc (m - 1) = omega arith in
        let step =
          search_loop-gt icmp b target fuel it lo right out m (le_trans lower upper) mid p.0 reads.0
            h in
        rw (step, next)
          (rest (seek_to it m) lo (m - 1) (record {
            views = bounds.views;
            below = bounds.below;
            above = subst Above back (Above-self m p e h);
            ordered = omega arith;
            small = omega (arith, bounds.small);
            enough = omega (arith, bounds.enough);
          }))

    round-eq : icmp.cmp p.0 target ≡ Ordering.eq → Searches (suc fuel) it lo right out
    round-eq h =
        let before = λ (j : ℕ) (q : Pair) (lt : j < m) (f : get_elem? ps j ≡ some q).
          cmp-lt_eq icmp q.0 p.0 target (IsSorted-lt icmp ps j m q p sorted lt f e) h in
        (
          record { status = ok_status; out = p.1; iter = seek_to it m },
          search_loop-eq icmp b target fuel it lo right out m (le_trans lower upper) mid p.0 reads.0
              p.1 reads.1 h,
          rw (find_pair-some icmp target ps m p e h before) (refl, refl),
        )

    round_lem : Searches (suc fuel) it lo right out
    round_lem = elim (Ordering-cases (icmp.cmp p.0 target)) [
      | inl h ↦ round-lt h
      | inr (inl h) ↦ round-eq h
      | inr (inr h) ↦ round-gt h
    ]

  search_loop-Answers :
      (fuel : ℕ) (it : PersistentChunkIterator) (lo right : ℕ) (out : Bytes)
      → StartsBy icmp target ps
      → IsBounded fuel it lo right
      → Searches fuel it lo right out
  search_loop-Answers zero it lo right out starts bounds = absurd (omega (arith, bounds.enough))
  search_loop-Answers (suc fuel) it lo right out starts bounds = elim (dec_lt right lo) [
    | yes over ↦
        let same : suc right ≡ lo = omega (arith, bounds.ordered) in
        (
          record { status = not_found; out = out; iter = it },
          search_loop-over icmp b target fuel it lo right out over,
          rw (find-none lo bounds.below (subst Above same bounds.above)) (refl, refl),
        )
    | no inside ↦
        let m = lo + (right - lo) / 2 in
        let (p, e) = get_elem?-lt ps m (omega (arith, bounds.small)) in
        round_lem fuel it lo right out
          (λ it' lo' right'. search_loop-Answers fuel it' lo' right' out starts) starts bounds p m
          (omega arith) (omega arith)
          (middle-eq lo right (omega arith) (omega (arith, bounds.small))) e
  ]

-- On a sorted chunk of fewer than 2 ^ 63 pairs whose first key is not above the target, the binary
-- search ends normally within its fuel: it reports the value of the pair with the target's key, or
-- that there is none and leaves the string as it was.
pub search_in_chunk-Answers :
    (icmp : Comparator) (b : Buffer) (target : Bytes) (ps : List Pair)
    (it : PersistentChunkIterator) (out : Bytes)
    → IsSorted icmp ps
    → length ps < 2 ^ 63
    → StartsBy icmp target ps
    → Views b it.v_key it.v_value ps
    → Returns (search_in_chunk icmp b target it out) (Answers (find_pair icmp target ps) out)
unfolding search_in_chunk count
search_in_chunk-Answers icmp b target ps it out sorted few starts v =
    let n = length ps in
    let len = Views-length b it.v_key it.v_value ps v in
    let pos = StartsBy-length icmp target ps starts in
    let last : sub64 n 1 ≡ n - 1 = omega arith in
    rw (len, last)
      (search_loop-Answers icmp b target ps sorted few (n + 2) it 0 (n - 1) out starts (record {
        views = v;
        below = λ i p lt e. absurd (omega arith);
        above = λ i p le e. absurd (omega (arith, lt_of_get_elem? ps i e));
        ordered = omega arith;
        small = omega arith;
        enough = omega arith;
      }))
