-- ===== src/Concurrent/Usage.antt =====
-- concurrentnvmarena.h: what the arena reports of its memory.
use rocksdb_pmdk.Base.{
  ℕ, zero, suc, ◌+◌, ◌/◌, ◌<◌, ◌≤◌, ◌^◌, ◌≡◌, ◌≢◌, refl, false, Bool, some, List, [], ◌∷◌,
  get_elem?, set, ltb, ◌==◌, Run, arith, Returns,
}
use rocksdb_pmdk.Base.Words.{add64}
use rocksdb_pmdk.Concurrent.{
  Arena, Shard, ConcurrentNvmArena, shard_allocated_and_unused, take_from, allocate_impl,
}

module _ {A : Type 0} where
  unfoldable pub memory_allocated_bytes : ConcurrentNvmArena A → ℕ
  memory_allocated_bytes c = c.memory_allocated_bytes

  unfoldable pub allocated_and_unused : ConcurrentNvmArena A → ℕ
  allocated_and_unused c = add64 c.arena_allocated_and_unused (shard_allocated_and_unused c.shards)

  unfoldable pub irregular_block_num : ConcurrentNvmArena A → ℕ
  irregular_block_num c = c.irregular_block_num

shards-less :
    (ss : List Shard) (pick n : ℕ) (s s' : Shard)
    → get_elem? ss pick ≡ some s
    → s'.allocated_and_unused + n ≡ s.allocated_and_unused
    → add64 (shard_allocated_and_unused (set ss pick s')) n ≡ shard_allocated_and_unused ss
unfolding shard_allocated_and_unused
shards-less [] pick n s s' at e = absurd (cc)
shards-less (x ∷ ss) zero n s s' at e = let same : x ≡ s = cc in rw same (omega (arith, e))
shards-less (x ∷ ss) (suc pick) n s s' at e = omega (arith, shards-less ss pick n s s' at e)

less :
    (total part n : ℕ)
    → (rest : ℕ) → add64 rest n ≡ part
    → add64 (add64 total rest) n ≡ add64 total part
less total part n rest e = omega (arith, e)

take_from-less :
    (s : Shard) (bytes : ℕ)
    → bytes ≤ s.allocated_and_unused
    → s.allocated_and_unused < 2 ^ 64
    → (take_from s s.allocated_and_unused bytes).1.allocated_and_unused + bytes
      ≡ s.allocated_and_unused
unfolding take_from
take_from-less s bytes enough small = ground arith

module _ {A : Type 0} (ops : Arena A) (func : A → Run (ℕ × A)) (bytes : ℕ) (arena_free : Bool) where
  -- On a core that has been given a shard, a call that does not force the arena (`force_arena` is
  -- false), for at most a quarter of a shard's block, and which the shard that is taken has bytes for,
  -- returns: the bytes are what `AllocatedAndUnused` reports less than before, counted in words of 64
  -- bits, and `MemoryAllocatedBytes` and `IrregularBlockNum` report the same.
  pub allocate_impl-allocated_and_unused :
      (cpu pick : ℕ) (c : ConcurrentNvmArena A) (first s : Shard)
      → cpu ≢ 0
      → bytes ≤ c.shard_block_size / 4
      → get_elem? c.shards 0 ≡ some first
      → get_elem? c.shards pick ≡ some s
      → bytes ≤ s.allocated_and_unused
      → s.allocated_and_unused < 2 ^ 64
      → Returns (allocate_impl ops func bytes false cpu arena_free pick c) λ r.
        (add64 (allocated_and_unused r.1) bytes ≡ allocated_and_unused c)
        × (memory_allocated_bytes r.1 ≡ memory_allocated_bytes c)
        × (irregular_block_num r.1 ≡ irregular_block_num c)
  unfolding allocate_impl allocated_and_unused memory_allocated_bytes irregular_block_num
  allocate_impl-allocated_and_unused cpu pick c first s used small e₀ e enough word =
      let e₁ : ltb (c.shard_block_size / 4) bytes ≡ false = ground arith in
      let e₂ : (cpu == 0) ≡ false = ground (arith, used) in
      let e₃ : ltb s.allocated_and_unused bytes ≡ false = ground arith in
      let taken = take_from s s.allocated_and_unused bytes in
      let shards =
        shards-less c.shards pick bytes s taken.1 e (take_from-less s bytes enough word) in
      rw (e₀, e₁, e₂, e, e₃)
        (_, refl, (less c.arena_allocated_and_unused _ bytes _ shards, refl, refl))
