-- ===== src/Concurrent/History.antt =====
-- Any series of requests to the class's own blocks, as steps of a system, in a build without
-- `MAP_HUGETLB`. The environment chooses the requests and where `new` finds its blocks.
use rocksdb_pmdk.Arena.Series.{Request, unaligned, aligned, bytes_of}
use rocksdb_pmdk.Base.{
  ℕ, ◌+◌, ◌<◌, ◌^◌, ◌-◌, ◌≡◌, inl, inr, List, ◌∷◌, Run, ok, subst, sym, false, arith,
}
use rocksdb_pmdk.Base.Regions.{
  Apart, ApartFrom, AreApart, IsWithin, ApartFrom-IsWithin, Apart-sym, Apart-IsWithin,
}
use rocksdb_pmdk.Concurrent.Blocks.{BlockArena, allocate, allocate_aligned}
use rocksdb_pmdk.Concurrent.Handouts.{
  free, IsBlockArena, Cuts, block_bytes, Sources, Keeps, allocate-Sources, take_aligned-Sources,
  allocate_aligned-eq,
}

-- The arena, and the pieces that it has handed out.
pub record System : Type 0 where
  pub arena : BlockArena
  pub issued : List (ℕ × ℕ)

unfoldable pub serve : (ℕ → ℕ) → ℕ → Request → BlockArena → Run (ℕ × BlockArena)
serve huge_page block (unaligned n) a = allocate false huge_page block a n
serve huge_page block (aligned n) a = allocate_aligned false huge_page block a n

-- What `new` promises of the block: it does not wrap, and it is apart from all memory in use.
pub record IsFresh (huge_page : ℕ → ℕ) (block : ℕ) (s : System) (bytes : ℕ) : Type 0 where
  pub ends : block + block_bytes huge_page block s.arena bytes < 2 ^ 64
  pub unused : ApartFrom (block, block_bytes huge_page block s.arena bytes) s.issued
  pub outside : Apart (block, block_bytes huge_page block s.arena bytes) (free s.arena)

-- A call that returns, with what it hands out.
pub data Step (huge_page : ℕ → ℕ) (s t : System) : Type 0 where
  call :
      (q : Request) (block : ℕ) (r : ℕ × BlockArena)
      → bytes_of q < 2 ^ 64 - 8
      → IsFresh huge_page block s (bytes_of q)
      → serve huge_page block q s.arena ≡ ok r
      → t ≡ record { arena = r.1; issued = (r.0, bytes_of q) ∷ s.issued }
      → Step huge_page s t

pub data Reach (huge_page : ℕ → ℕ) (s : System) : System → Type 0 where
  here : Reach huge_page s s
  later : {t u : System} → Reach huge_page s t → Step huge_page t u → Reach huge_page s u

-- The pieces are disjoint, and so are they from what is left of the current block.
pub record IsSafe (s : System) : Type 0 where
  pub arena_ok : IsBlockArena s.arena
  pub issued_apart : AreApart s.issued
  pub free_apart : ApartFrom (free s.arena) s.issued

serve-Sources :
    (huge_page : ℕ → ℕ) (block : ℕ) (q : Request) (a : BlockArena) (r : ℕ × BlockArena)
    → IsBlockArena a
    → bytes_of q < 2 ^ 64 - 8
    → block + block_bytes huge_page block a (bytes_of q) < 2 ^ 64
    → serve huge_page block q a ≡ ok r
    → Sources huge_page block a (bytes_of q) r × Keeps huge_page block a r
unfolding serve
serve-Sources huge_page block (unaligned n) a r v sane small e =
    allocate-Sources huge_page block a n r v small e
serve-Sources huge_page block (aligned n) a r v sane small e =
    let (same, _) = allocate_aligned-eq huge_page block a n r e in
    subst (λ x. Sources huge_page block a n x × Keeps huge_page block a x) same
      (take_aligned-Sources huge_page block a n v sane small)

-- A piece that was cut off from an area apart from the old pieces.
Cuts-IsSafe :
    (area : ℕ × ℕ) (p : ℕ × ℕ) (a : BlockArena) (issued : List (ℕ × ℕ))
    → Cuts area p a
    → IsBlockArena a
    → AreApart issued
    → ApartFrom area issued
    → IsSafe (record { arena = a; issued = p ∷ issued })
Cuts-IsSafe area p a issued c v old away = record {
  arena_ok = v;
  issued_apart = (ApartFrom-IsWithin p area issued c.inside away, old);
  free_apart = (Apart-sym p (free a) c.apart, ApartFrom-IsWithin (free a) area issued c.left away);
}

pub Step-IsSafe : {huge_page : ℕ → ℕ} {s t : System} → Step huge_page s t → IsSafe s → IsSafe t
Step-IsSafe {huge_page} {s} (call q block r sane fresh run e) v =
    let a = s.arena in
    let n = bytes_of q in
    let (source, (kept, _)) = serve-Sources huge_page block q a r v.arena_ok sane fresh.ends run in
    let done : IsSafe (record { arena = r.1; issued = (r.0, n) ∷ s.issued }) = elim source [
      | inl cut ↦ Cuts-IsSafe (free a) (r.0, n) r.1 s.issued cut kept v.issued_apart v.free_apart
      | inr (inr cut) ↦
          Cuts-IsSafe (block, block_bytes huge_page block a n) (r.0, n) r.1 s.issued cut kept
            v.issued_apart fresh.unused
      | inr (inl (at, same, le)) ↦
          let area : ℕ × ℕ = (block, block_bytes huge_page block a n) in
          let w : IsWithin (r.0, n) area = (omega arith, omega arith) in
          let away = Apart-IsWithin (r.0, n) area (free a) w fresh.outside in
          record {
            arena_ok = kept;
            issued_apart =
                (ApartFrom-IsWithin (r.0, n) area s.issued w fresh.unused, v.issued_apart);
            free_apart =
                subst (λ x. ApartFrom x ((r.0, n) ∷ s.issued)) (sym same)
                  (Apart-sym (r.0, n) (free a) away, v.free_apart);
          }
    ] in
    subst (λ u. IsSafe u) (sym e) done

-- In a build without `MAP_HUGETLB`, after any series of calls that return, for fewer than 2 ^ 64 - 8
-- bytes each, with blocks from `new` that are apart from all memory in use, the pieces that
-- `Allocate` and `AllocateAligned` have handed out are disjoint, and apart from what is left of the
-- current block, if they were so before.
pub Reach-IsSafe : {huge_page : ℕ → ℕ} {s t : System} → Reach huge_page s t → IsSafe s → IsSafe t
Reach-IsSafe here v = v
Reach-IsSafe (later r step) v = Step-IsSafe step (Reach-IsSafe r v)
