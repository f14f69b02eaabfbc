-- ===== src/Allocator.antt =====
-- `PersistentAllocator` of fixed_range_chunk_based_nvm_write_cache.h: it hands out consecutive pieces
-- of one array and never takes one back.
use rocksdb_pmdk.Base.{ℕ, ◌+◌, ◌<◌, ◌≤◌, ◌^◌, ◌≡◌, refl, List, [], ◌∷◌, arith}
use rocksdb_pmdk.Base.Words.{add64, sub64}

-- `raw` is the offset of the array.
pub record PersistentAllocator : Type 0 where
  pub raw : ℕ
  pub total_size : ℕ
  pub cur : ℕ

unfoldable pub new_allocator : ℕ → ℕ → PersistentAllocator
new_allocator raw_space total_size = record { raw = raw_space; total_size = total_size; cur = 0 }

-- Whether the piece fits is not tested.
unfoldable pub allocate : PersistentAllocator → ℕ → ℕ × PersistentAllocator
allocate s alloca_size = (add64 s.raw s.cur, record s { cur = add64 s.cur alloca_size })

unfoldable pub remain : PersistentAllocator → ℕ
remain s = sub64 s.total_size s.cur

unfoldable pub capacity : PersistentAllocator → ℕ
capacity s = s.total_size

-- A series of calls, with the pieces that they return.
unfoldable pub allocate_all : List ℕ → PersistentAllocator → List (ℕ × ℕ) × PersistentAllocator
unfolding allocate
allocate_all [] s = ([], s)
allocate_all (n ∷ ns) s =
    let r = allocate s n in let rest = allocate_all ns r.1 in ((r.0, n) ∷ rest.0, rest.1)

abbrev pub total : List ℕ → ℕ
total [] = 0
total (n ∷ ns) = n + total ns

-- The pieces follow one another from `start` to `end`.
abbrev pub Tiles : ℕ → List (ℕ × ℕ) → ℕ → Type 0
Tiles start [] end = start ≡ end
Tiles start ((p, n) ∷ pieces) end = (p ≡ start) × Tiles (start + n) pieces end

Tiles-at :
    (start start' : ℕ) (pieces : List (ℕ × ℕ)) (end end' : ℕ)
    → start ≡ start'
    → end ≡ end'
    → Tiles start pieces end
    → Tiles start' pieces end'
Tiles-at start start' [] end end' e f t = omega arith
Tiles-at start start' ((p, n) ∷ pieces) end end' e f t =
    (omega arith, Tiles-at (start + n) (start' + n) pieces end end' (omega arith) f t.1)

-- As long as the pieces fit into what remains, and the array ends below 2 ^ 64, a series of calls
-- of Allocate gives pieces that follow one another, the remaining space falls by their total, and
-- the capacity stays.
pub allocate_all-Tiles :
    (ns : List ℕ) (s : PersistentAllocator)
    → s.cur + total ns ≤ s.total_size
    → s.raw + s.total_size < 2 ^ 64
    → let r = allocate_all ns s in
      Tiles (s.raw + s.cur) r.0 (s.raw + s.cur + total ns)
      × (remain r.1 + total ns ≡ remain s)
      × (capacity r.1 ≡ capacity s)
unfolding allocate_all remain capacity
allocate_all-Tiles [] s fits small = (omega arith, omega arith, refl)
allocate_all-Tiles (n ∷ ns) s fits small =
    let e : add64 s.cur n ≡ s.cur + n = omega arith in
    let next : PersistentAllocator = record s { cur = s.cur + n } in
    let (tiles, left, cap) = allocate_all-Tiles ns next (omega arith) small in
    rw e (
      (
        omega arith,
        Tiles-at (s.raw + (s.cur + n)) (s.raw + s.cur + n) _ _ _ (omega arith) (omega arith) tiles,
      ),
      omega arith,
      cap,
    )

-- A call of Allocate for a piece that does not fit, and that ends below 2 ^ 63, leaves a remaining
-- space above the capacity.
pub allocate-wraps :
    (s : PersistentAllocator) (n : ℕ)
    → s.cur ≤ s.total_size
    → s.total_size < s.cur + n
    → s.cur + n < 2 ^ 63
    → capacity s < remain (allocate s n).1
unfolding allocate remain capacity
allocate-wraps s n used over small = omega arith
