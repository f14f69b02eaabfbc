-- ===== src/Arena/Series.antt =====
-- Any series of requests to an arena.
use rocksdb_pmdk.Base.{
  ℕ, ◌+◌, ◌%◌, ◌<◌, ◌≤◌, ◌≡◌, refl, ◌⊎◌, inl, inr, List, [], ◌∷◌, All, Run, ok, ◌>>=◌, arith,
  Returns,
}
use rocksdb_pmdk.Arena.{NvmArena, allocate, allocate_aligned, approximate_memory_usage, align_unit}
use rocksdb_pmdk.Arena.Serve.{
  IsArena, Served, allocate-Served, allocate_aligned-Served, allocate-returns,
  allocate_aligned-returns,
}

-- A call of `Allocate` or of `AllocateAligned`.
pub data Request : Type 0 where
  unaligned : ℕ → Request
  aligned : ℕ → Request

unfoldable pub serve_one : Request → NvmArena → Run (ℕ × NvmArena)
serve_one (unaligned n) a = allocate a n
serve_one (aligned n) a = allocate_aligned a n

abbrev pub bytes_of : Request → ℕ
bytes_of (unaligned n) = n
bytes_of (aligned n) = n

-- A series of calls, with the pieces that they return.
unfoldable pub serve : List Request → NvmArena → Run (List (ℕ × ℕ) × NvmArena)
serve [] a = ok ([], a)
serve (q ∷ qs) a =
    serve_one q a >>= λ r. serve qs r.1 >>= λ rest. ok ((r.0, bytes_of q) ∷ rest.0, rest.1)

-- The bytes of the requests, with a unit more for each aligned one.
abbrev pub room : List Request → ℕ
room [] = 0
room (unaligned n ∷ qs) = n + room qs
room (aligned n ∷ qs) = n + align_unit + room qs

abbrev pub total : List Request → ℕ
total [] = 0
total (q ∷ qs) = bytes_of q + total qs

-- No request for unaligned memory is for 0 bytes, which the source asserts.
abbrev pub ArePositive : List Request → Type 0
ArePositive [] = Unit
ArePositive (unaligned n ∷ qs) = (0 < n) × ArePositive qs
ArePositive (aligned n ∷ qs) = ArePositive qs

abbrev pub AreDisjoint : List (ℕ × ℕ) → Type 0
AreDisjoint [] = Unit
AreDisjoint (p ∷ ps) = All (λ q. (p.0 + p.1 ≤ q.0) ⊎ (q.0 + q.1 ≤ p.0)) ps × AreDisjoint ps

-- Each piece has the size of its request, and an aligned one starts at a multiple of the unit.
abbrev pub Answers : List Request → List (ℕ × ℕ) → Type 0
Answers [] [] = Unit
Answers (unaligned n ∷ qs) (p ∷ ps) = (p.1 ≡ n) × Answers qs ps
Answers (aligned n ∷ qs) (p ∷ ps) = (p.1 ≡ n) × (p.0 % align_unit ≡ 0) × Answers qs ps
Answers qs ps = ⊥

abbrev pub AreWithin : ℕ → ℕ → List (ℕ × ℕ) → Type 0
AreWithin lo hi = All (λ p. (lo ≤ p.0) × (p.0 + p.1 ≤ hi))

-- What a series of calls did: the pieces are as they were asked for, lie between the two pointers
-- as they were, and are disjoint from one another; the arena is still one, and its memory usage has
-- grown by the bytes at least.
pub record Allotted (a : NvmArena) (qs : List Request) (r : List (ℕ × ℕ) × NvmArena) : Type 0 where
  pub is_arena : IsArena r.1
  pub answers : Answers qs r.0
  pub within : AreWithin a.aligned_alloc_ptr a.unaligned_alloc_ptr r.0
  pub disjoint : AreDisjoint r.0
  pub usage : approximate_memory_usage a + total qs ≤ approximate_memory_usage r.1

AreWithin-shrink :
    (lo hi lo' hi' : ℕ) (ps : List (ℕ × ℕ))
    → lo ≤ lo'
    → hi' ≤ hi
    → AreWithin lo' hi' ps
    → AreWithin lo hi ps
AreWithin-shrink lo hi lo' hi' [] l h w = tt
AreWithin-shrink lo hi lo' hi' (p ∷ ps) l h w =
    ((omega arith, omega arith), AreWithin-shrink lo hi lo' hi' ps l h w.1)

apart_from_rest :
    (p n lo hi : ℕ) (ps : List (ℕ × ℕ))
    → (p + n ≤ lo) ⊎ (hi ≤ p)
    → AreWithin lo hi ps
    → All (λ q. (p + n ≤ q.0) ⊎ (q.0 + q.1 ≤ p)) ps
apart_from_rest p n lo hi [] out w = tt
apart_from_rest p n lo hi (q ∷ ps) (inl before) w =
    (inl (omega arith), apart_from_rest p n lo hi ps (inl before) w.1)
apart_from_rest p n lo hi (q ∷ ps) (inr behind) w =
    (inr (omega arith), apart_from_rest p n lo hi ps (inr behind) w.1)

usage-eq :
    (a : NvmArena) → IsArena a → approximate_memory_usage a + a.alloc_bytes_remaining ≡ a.block_sz
unfolding approximate_memory_usage
usage-eq a v =
    let left = v.left in
    let middle = v.middle in
    let right = v.right in let small = v.small in let counted = v.counted in omega arith

Served-Allotted :
    (a : NvmArena) (slack : ℕ) (q : Request) (qs : List Request) (r : ℕ × NvmArena)
    (rest : List (ℕ × ℕ) × NvmArena)
    → IsArena a
    → Served a slack (bytes_of q) r
    → Answers (q ∷ qs) ((r.0, bytes_of q) ∷ rest.0)
    → Allotted r.1 qs rest
    → Allotted a (q ∷ qs) ((r.0, bytes_of q) ∷ rest.0, rest.1)
Served-Allotted a slack q qs r rest v s answers t =
    let u = usage-eq a v in
    let u' = usage-eq r.1 s.is_arena in
    let grown = t.usage in
    let taken = s.taken in
    let size = s.same_size in
    let (in_left, in_right) = s.inside in
    let (closed_left, closed_right) = s.closed in
    let middle = v.middle in
    record {
      is_arena = t.is_arena;
      answers = answers;
      within = (
        (in_left, in_right),
        AreWithin-shrink a.aligned_alloc_ptr a.unaligned_alloc_ptr r.1.aligned_alloc_ptr
            r.1.unaligned_alloc_ptr rest.0 closed_left closed_right t.within,
      );
      disjoint = (
        apart_from_rest r.0 (bytes_of q) r.1.aligned_alloc_ptr r.1.unaligned_alloc_ptr rest.0 s.past
            t.within,
        t.disjoint,
      );
      usage = omega arith;
    }

-- On a well-formed arena any series of requests, none of it for 0 bytes of unaligned memory, whose
-- bytes fit with 16 more for each aligned one, returns pieces of the sizes that were asked for,
-- which lie between the two pointers and are disjoint; aligned ones start at multiples of 16, the
-- arena stays well formed, and its memory usage grows by the bytes at least.
pub serve-Allotted :
    (qs : List Request) (a : NvmArena)
    → IsArena a
    → ArePositive qs
    → room qs ≤ a.alloc_bytes_remaining
    → Returns (serve qs a) (Allotted a qs)
unfolding serve serve_one
serve-Allotted [] a v pos fits = (
  ([], a),
  refl,
  record { is_arena = v; answers = tt; within = tt; disjoint = tt; usage = omega arith },
)
serve-Allotted (unaligned n ∷ qs) a v pos fits =
    let (r, run) = allocate-returns a n pos.0 (omega arith) in
    let s = allocate-Served a n r v run in
    let (rest, runs, t) = serve-Allotted qs r.1 s.is_arena pos.1 (omega (arith, s.spent)) in
    (
      ((r.0, n) ∷ rest.0, rest.1),
      rw (run, runs) refl,
      Served-Allotted a 0 (unaligned n) qs r rest v s (refl, t.answers) t,
    )
serve-Allotted (aligned n ∷ qs) a v pos fits =
    let (r, run) = allocate_aligned-returns a n v (omega arith) in
    let (s, multiple) = allocate_aligned-Served a n r v (omega arith) run in
    let (rest, runs, t) = serve-Allotted qs r.1 s.is_arena pos (omega (arith, s.spent)) in
    (
      ((r.0, n) ∷ rest.0, rest.1),
      rw (run, runs) refl,
      Served-Allotted a align_unit (aligned n) qs r rest v s (refl, multiple, t.answers) t,
    )
