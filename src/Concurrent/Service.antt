-- ===== src/Concurrent/Service.antt =====
-- Every request to the class's own blocks is served, in a build without `MAP_HUGETLB`.
use rocksdb_pmdk.Arena.Series.{Request, unaligned, aligned, bytes_of}
use rocksdb_pmdk.Base.{
  ℕ, ◌-◌, ◌%◌, ◌<◌, ◌≤◌, ◌^◌, ◌≡◌, refl, true, false, ltb, ◌==◌, ◌∷◌, ok, arith, Returns,
}
use rocksdb_pmdk.Concurrent.Blocks.{
  BlockArena, allocate, allocate_aligned, allocate_fallback, take_aligned,
}
use rocksdb_pmdk.Concurrent.Edge.{rounding_holds_lem}
use rocksdb_pmdk.Concurrent.History.{
  System, IsFresh, IsSafe, Step, call, Step-IsSafe, Reach, Reach-IsSafe, serve,
}

module _ (huge_page : ℕ → ℕ) (block : ℕ) (a : BlockArena) where
  fallback-even : (bytes : ℕ) → (allocate_fallback false huge_page block a bytes true).0 ≡ block
  unfolding allocate_fallback
  fallback-even bytes = ground arith

  -- The address that `AllocateAligned` returns passes its last assertion.
  take_aligned-even :
      (bytes : ℕ) → block % 8 ≡ 0 → (take_aligned false huge_page block a bytes).0 % 8 ≡ 0
  unfolding take_aligned
  take_aligned-even bytes even = ground (arith, fallback-even bytes)

  serve-Returns :
      (q : Request)
      → block % 8 ≡ 0
      → 0 < bytes_of q
      → bytes_of q ≤ 2 ^ 64 - 16
      → Returns (serve huge_page block q a) λ r. serve huge_page block q a ≡ ok r
  unfolding serve allocate allocate_aligned
  serve-Returns (unaligned n) even pos small =
      let some_bytes : ltb 0 n ≡ true = ground arith in rw some_bytes (_, refl, refl)
  serve-Returns (aligned n) even pos small =
      let last : ((take_aligned false huge_page block a n).0 % 8 == 0) ≡ true =
        ground (arith, take_aligned-even n even) in
      rw (rounding_holds_lem n small, last) (_, refl, refl)

-- In a build without `MAP_HUGETLB`, after any series of calls, a further request, for at least one
-- byte and at most 2 ^ 64 - 16, returns, where `new` gives blocks at multiples of 8 and apart from all
-- memory in use; its piece is disjoint from all that were handed out, and all of them are disjoint from
-- one another and from what is left of the current block, if they were so before.
pub serve-IsSafe :
    {huge_page : ℕ → ℕ} {s t : System} (q : Request) (block : ℕ)
    → IsSafe s
    → Reach huge_page s t
    → IsFresh huge_page block t (bytes_of q)
    → block % 8 ≡ 0
    → 0 < bytes_of q
    → bytes_of q ≤ 2 ^ 64 - 16
    → Returns
        (serve huge_page block q t.arena)
        λ r. IsSafe (record { arena = r.1; issued = (r.0, bytes_of q) ∷ t.issued })
serve-IsSafe {huge_page} {s} {t} q block v reach fresh even pos small =
    let (r, run, same) = serve-Returns huge_page block t.arena q even pos small in
    let u : System = record { arena = r.1; issued = (r.0, bytes_of q) ∷ t.issued } in
    let step : Step huge_page t u = call q block r (omega arith) fresh same refl in
    (r, run, Step-IsSafe step (Reach-IsSafe reach v))
