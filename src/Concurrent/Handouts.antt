-- ===== src/Concurrent/Handouts.antt =====
-- One request to the class's own blocks, in a build without `MAP_HUGETLB`.
use rocksdb_pmdk.Base.{
  after_guard, ok_inj, guard, ◌>>◌, assertion_failed, subst, ℕ, ◌+◌, ◌-◌, ◌/◌, ◌%◌, ◌<◌, ◌≤◌, ◌^◌,
  ◌≡◌, refl, ◌⊎◌, inl, inr, Bool, true, false, Bool-cases, ltb, leb, ◌==◌, if◌then◌else◌, ok, arith,
}
use rocksdb_pmdk.Base.Regions.{Apart, IsWithin}
use rocksdb_pmdk.Base.Words.{add64, sub64}
use rocksdb_pmdk.Concurrent.Blocks.{
  BlockArena, allocate_fallback, allocate, allocate_aligned, take_aligned, rounding_holds,
}

-- What is left of the current block.
abbrev pub free : BlockArena → ℕ × ℕ
free a = (a.aligned_alloc_ptr, a.alloc_bytes_remaining)

-- The two pointers enclose what is left.
pub record IsBlockArena (a : BlockArena) : Type 0 where
  pub meets : a.aligned_alloc_ptr + a.alloc_bytes_remaining ≡ a.unaligned_alloc_ptr
  pub small : a.unaligned_alloc_ptr < 2 ^ 64

-- From `area` the piece `p` was cut off, and `a` has the rest on one side of it.
pub record Cuts (area p : ℕ × ℕ) (a : BlockArena) : Type 0 where
  pub inside : IsWithin p area
  pub left : IsWithin (free a) area
  pub apart : Apart p (free a)

module _ (huge_page : ℕ → ℕ) (block : ℕ) (a : BlockArena) where
  -- The size of the block that a request takes by `new`, if it takes one.
  abbrev pub block_bytes : ℕ → ℕ
  block_bytes bytes = if ltb (a.k_block_size / 4) bytes then bytes else a.k_block_size

  -- Where the memory of a request comes from: what is left, a block of its own, a new block.
  abbrev pub Sources : ℕ → ℕ × BlockArena → Type 0
  Sources bytes r =
      Cuts (free a) (r.0, bytes) r.1
      ⊎ ((r.0 ≡ block) × (free r.1 ≡ free a) × (bytes ≤ block_bytes bytes))
      ⊎ Cuts (block, block_bytes bytes) (r.0, bytes) r.1

  abbrev pub Keeps : ℕ × BlockArena → Type 0
  Keeps r = IsBlockArena r.1 × (r.1.k_block_size ≡ a.k_block_size)

  own_block :
      (bytes : ℕ) (aligned : Bool)
      → IsBlockArena a
      → ltb (a.k_block_size / 4) bytes ≡ true
      → let r = allocate_fallback false huge_page block a bytes aligned in
        (r.0 ≡ block) × (free r.1 ≡ free a) × Keeps r
  unfolding allocate_fallback
  own_block bytes aligned v h =
      rw h (refl, refl, (record { meets = v.meets; small = v.small }, refl))

  new_block :
      (bytes : ℕ) (aligned : Bool)
      → ltb (a.k_block_size / 4) bytes ≡ false
      → block + a.k_block_size < 2 ^ 64
      → let r = allocate_fallback false huge_page block a bytes aligned in
        Cuts (block, a.k_block_size) (r.0, bytes) r.1 × Keeps r
  unfolding allocate_fallback
  new_block bytes aligned h small = ground arith

  fallback-Sources :
      (bytes : ℕ) (aligned : Bool)
      → IsBlockArena a
      → block + block_bytes bytes < 2 ^ 64
      → let r = allocate_fallback false huge_page block a bytes aligned in Sources bytes r × Keeps r
  fallback-Sources bytes aligned v small = elim (Bool-cases (ltb (a.k_block_size / 4) bytes)) [
    | inl large ↦
        let (at, same, keeps) = own_block bytes aligned v large in
        (inr (inl (at, same, rw large (omega arith))), keeps)
    | inr fits ↦
        let (cuts, keeps) = new_block bytes aligned fits (rw fits at small) in
        (inr (inr (rw fits cuts)), keeps)
  ]

  from_left :
      (bytes : ℕ)
      → IsBlockArena a
      → bytes ≤ a.alloc_bytes_remaining
      → let top = sub64 a.unaligned_alloc_ptr bytes in
        let r : ℕ × BlockArena = (
          top,
          record a {
            unaligned_alloc_ptr = top;
            alloc_bytes_remaining = a.alloc_bytes_remaining - bytes;
          },
        ) in
        Cuts (free a) (top, bytes) r.1 × Keeps r
  from_left bytes v fits = ground arith

  pub allocate-Sources :
      (bytes : ℕ) (r : ℕ × BlockArena)
      → IsBlockArena a
      → block + block_bytes bytes < 2 ^ 64
      → allocate false huge_page block a bytes ≡ ok r
      → Sources bytes r × Keeps r
  unfolding allocate
  allocate-Sources bytes r v small e =
      let run = (after_guard (ltb 0 bytes) assertion_failed _ r e).1 in
      elim (Bool-cases (leb bytes a.alloc_bytes_remaining)) [
        | inl fits ↦
            let same = ok_inj _ r (rw fits at run) in
            let (cuts, keeps) = from_left bytes v (ground arith) in
            subst (λ x. Sources bytes x × Keeps x) same (inl cuts, keeps)
        | inr full ↦
            let same = ok_inj _ r (rw full at run) in
            subst (λ x. Sources bytes x × Keeps x) same (fallback-Sources bytes false v small)
      ]

  from_right :
      (bytes slop : ℕ)
      → IsBlockArena a
      → slop < 8
      → add64 bytes slop ≤ a.alloc_bytes_remaining
      → bytes < 2 ^ 64 - 8
      → let needed = add64 bytes slop in
        let r : ℕ × BlockArena = (
          add64 a.aligned_alloc_ptr slop,
          record a {
            aligned_alloc_ptr = add64 a.aligned_alloc_ptr needed;
            alloc_bytes_remaining = a.alloc_bytes_remaining - needed;
          },
        ) in
        Cuts (free a) (r.0, bytes) r.1 × Keeps r
  from_right bytes slop v few fits sane = ground arith

  pub take_aligned-Sources :
      (bytes : ℕ)
      → IsBlockArena a
      → bytes < 2 ^ 64 - 8
      → block + block_bytes bytes < 2 ^ 64
      → let r = take_aligned false huge_page block a bytes in Sources bytes r × Keeps r
  unfolding take_aligned
  take_aligned-Sources bytes v sane small =
      let current_mod = a.aligned_alloc_ptr % 8 in
      let slop = if current_mod == 0 then 0 else 8 - current_mod in
      let short : slop < 8 = ground arith in
      elim (Bool-cases (leb (add64 bytes slop) a.alloc_bytes_remaining)) [
        | inl fits ↦
            let (cuts, keeps) = from_right bytes slop v short (ground arith) sane in
            rw fits (inl cuts, keeps)
        | inr full ↦ rw full (fallback-Sources bytes true v small)
      ]

  pub allocate_aligned-eq :
      (bytes : ℕ) (r : ℕ × BlockArena)
      → allocate_aligned false huge_page block a bytes ≡ ok r
      → (take_aligned false huge_page block a bytes ≡ r) × ((r.0 % 8 == 0) ≡ true)
  unfolding allocate_aligned
  allocate_aligned-eq bytes r e =
      let x = take_aligned false huge_page block a bytes in
      let run =
        (after_guard (rounding_holds bytes) assertion_failed
          (guard (x.0 % 8 == 0) assertion_failed >> ok x) r e).1 in
      let (even, done) = after_guard (x.0 % 8 == 0) assertion_failed (ok x) r run in
      let same = ok_inj x r done in (same, subst (λ y. (y.0 % 8 == 0) ≡ true) same even)
