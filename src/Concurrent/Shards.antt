-- ===== src/Concurrent/Shards.antt =====
-- Where the memory of a request to a shard lies.
use rocksdb_pmdk.Base.{
  after_guard, ℕ, ◌+◌, ◌/◌, ◌<◌, ◌≤◌, ◌^◌, ◌≡◌, refl, ◌⊎◌, inl, inr, Bool, Bool-cases, ◌&&◌,
  get_elem?, set, ltb, leb, ◌==◌, Run, ok, subst, ◌||◌, some, of_option, out_of_bounds,
  assertion_failed, >>=-eq-ok, arith,
}
use rocksdb_pmdk.Concurrent.{
  Arena, Shard, ConcurrentNvmArena, take_from, reload_size, from_arena, finish, reload,
  allocate_impl, fixup,
}

-- From the `avail` bytes at `lo` the piece at `p` has been cut off: it lies in them, and so does what
-- the shard has left, on one side of the piece.
pub record IsCut (lo avail bytes p : ℕ) (s : Shard) : Type 0 where
  pub inside : (lo ≤ p) × (p + bytes ≤ lo + avail)
  pub left : (lo ≤ s.free_begin) × (s.free_begin + s.allocated_and_unused ≤ lo + avail)
  pub apart : (p + bytes ≤ s.free_begin) ⊎ (s.free_begin + s.allocated_and_unused ≤ p)
  pub whole : s.allocated_and_unused + bytes ≡ avail

take_from-IsCut :
    (s : Shard) (avail bytes : ℕ)
    → bytes ≤ avail
    → s.free_begin + avail < 2 ^ 64
    → let r = take_from s avail bytes in IsCut s.free_begin avail bytes r.0 r.1
unfolding take_from
take_from-IsCut s avail bytes le small = ground arith

-- A new block is never smaller than a request that goes to a shard.
reload_size-le : (exact size bytes : ℕ) → bytes ≤ size / 4 → bytes ≤ reload_size exact size
unfolding reload_size
reload_size-le exact size bytes le = ground arith

-- The bytes that a shard asks of the arena.
abbrev pub block_bytes : {A : Type 0} → ConcurrentNvmArena A → ℕ
block_bytes c = reload_size c.arena_allocated_and_unused c.shard_block_size

module _ {A : Type 0} (ops : Arena A) (func : A → Run (ℕ × A)) (bytes pick : ℕ)
    (c : ConcurrentNvmArena A) where
  -- The arena served the request, or a piece was cut off from the free bytes of the shard or from a
  -- block that the arena gave for the shard.
  pub data Serves (s : Shard) (r : ℕ × ConcurrentNvmArena A) : Type 0 where
    by_arena : func c.arena ≡ ok (r.0, r.1.arena) → r.1.shards ≡ c.shards → Serves s r
    by_shard :
        {s' : Shard}
        → IsCut s.free_begin s.allocated_and_unused bytes r.0 s'
        → r.1.shards ≡ set c.shards pick s'
        → r.1.arena ≡ c.arena
        → Serves s r
    by_block :
        {lo : ℕ} {s' : Shard}
        → ops.allocate_aligned (block_bytes c) c.arena ≡ ok (lo, r.1.arena)
        → IsCut lo (block_bytes c) bytes r.0 s'
        → r.1.shards ≡ set c.shards pick s'
        → Serves s r

  Serves-at : (s : Shard) (x r : ℕ × ConcurrentNvmArena A) → ok x ≡ ok r → Serves s x → Serves s r
  Serves-at s x r e served = let same : x ≡ r = cc in subst (λ y. Serves s y) same served

  from_arena-Serves :
      (s : Shard) (r : ℕ × ConcurrentNvmArena A) → from_arena ops func bytes c ≡ ok r → Serves s r
  unfolding from_arena fixup
  from_arena-Serves s r run =
      let (q, e, rest) = >>=-eq-ok (func c.arena) _ run in Serves-at s _ r rest (by_arena e refl)

  finish-Serves :
      (s : Shard) (r : ℕ × ConcurrentNvmArena A)
      → bytes ≤ s.allocated_and_unused
      → s.free_begin + s.allocated_and_unused < 2 ^ 64
      → finish ops func bytes pick c s s.allocated_and_unused ≡ ok r
      → Serves s r
  unfolding finish
  finish-Serves s r le small run =
      let cut = take_from-IsCut s s.allocated_and_unused bytes le small in
      Serves-at s _ r run (by_shard cut refl refl)

  finish-block :
      (s : Shard) (r : ℕ × ConcurrentNvmArena A) (x : ℕ × A)
      → bytes ≤ block_bytes c
      → ops.allocate_aligned (block_bytes c) c.arena ≡ ok x
      → finish ops func bytes pick
          (fixup ops (record c { arena = x.1 }))
          (record s { free_begin = x.0 })
          (block_bytes c)
        ≡ ok r
      → Serves s r
  unfolding finish fixup
  finish-block s r x le given run =
      let small = ops.ends (block_bytes c) x.0 c.arena x.1 given in
      let cut = take_from-IsCut (record s { free_begin = x.0 }) (block_bytes c) bytes le small in
      Serves-at s _ r run (by_block given cut refl)

  reload-Serves :
      (s : Shard) (r : ℕ × ConcurrentNvmArena A)
      → bytes ≤ c.shard_block_size / 4
      → reload ops func bytes pick c s ≡ ok r
      → Serves s r
  unfolding reload
  reload-Serves s r few run =
      let exact = c.arena_allocated_and_unused in
      let avail = reload_size exact c.shard_block_size in
      let enough = reload_size-le exact c.shard_block_size bytes few in
      let open_run =
        (after_guard (exact == ops.allocated_and_unused c.arena) assertion_failed _ r run).1 in
      elim (Bool-cases (leb bytes exact && ops.is_in_inline_block c.arena)) [
        | inl direct ↦ from_arena-Serves s r (rw direct at open_run)
        | inr renewed ↦
            let (x, given, rest) =
              >>=-eq-ok (ops.allocate_aligned avail c.arena) _ (rw renewed at open_run) in
            finish-block s r x enough given rest
      ]

  -- Wherever the free bytes of the shard end below 2 ^ 64, a call of `AllocateImpl` that returns was
  -- served by the arena, or the piece was cut off from the free bytes of the shard that was taken or
  -- from a block that the arena gave for it: the piece lies in them, what the shard has left lies
  -- in them too, on one side of the piece, the two sizes add up, and no other shard has changed.
  pub allocate_impl-Serves :
      (force_arena : Bool) (cpu : ℕ) (arena_free : Bool) (s : Shard) (r : ℕ × ConcurrentNvmArena A)
      → get_elem? c.shards pick ≡ some s
      → s.free_begin + s.allocated_and_unused < 2 ^ 64
      → allocate_impl ops func bytes force_arena cpu arena_free pick c ≡ ok r
      → Serves s r
  unfolding allocate_impl
  allocate_impl-Serves force_arena cpu arena_free s r taken small run =
      let (first, e, next) = >>=-eq-ok (of_option out_of_bounds (get_elem? c.shards 0)) _ run in
      let idle = cpu == 0 && first.allocated_and_unused == 0 && arena_free in
      let direct = ltb (c.shard_block_size / 4) bytes || force_arena || idle in
      elim (Bool-cases direct) [
        | inl arena ↦ from_arena-Serves s r (rw arena at next)
        | inr shard ↦
            let few : bytes ≤ c.shard_block_size / 4 = ground arith in
            let in_shard = rw (shard, taken) at next in
            elim (Bool-cases (ltb s.allocated_and_unused bytes)) [
              | inl short ↦ reload-Serves s r few (rw short at in_shard)
              | inr long ↦ finish-Serves s r (ground arith) small (rw long at in_shard)
            ]
      ]
