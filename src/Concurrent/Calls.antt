-- ===== src/Concurrent/Calls.antt =====
-- Any series of calls of `AllocateImpl`, in the order that the locks give them.
use rocksdb_pmdk.Base.{
  get_elem?-map, All-get_elem, ℕ, ◌/◌, ◌≡◌, refl, inl, inr, Bool, true, Bool-cases, ◌&&◌, ◌||◌,
  List, [], ◌∷◌, get_elem?, ltb, leb, ◌==◌, some, Run, ok, ok_inj, subst, sym, ◌∙◌, arith, Returns,
}
use rocksdb_pmdk.Concurrent.{
  Arena, Shard, ConcurrentNvmArena, from_arena, finish, reload, allocate_impl, fixup,
}
use rocksdb_pmdk.Concurrent.Shards.{
  Serves, by_arena, by_shard, by_block, block_bytes, allocate_impl-Serves,
}
use rocksdb_pmdk.Concurrent.Sharing.{
  Shared, free, Ends, frees, IsNew, IsShared, Cuts-old, Cuts-new, cut-IsShared, direct-IsShared,
}

first_of :
    {B : Type 0} (xs : List B) (i : ℕ) (v : B)
    → get_elem? xs i ≡ some v
    → (w : B) × (get_elem? xs 0 ≡ some w)
first_of [] i v e = absurd (cc)
first_of (x ∷ xs) i v e = (x, refl)

module _ {A : Type 0} (ops : Arena A) (func : A → Run (ℕ × A)) (bytes : ℕ) where
  -- What the arena promises for a call: it returns memory that is apart from all memory in use.
  pub record Gives (u : Shared A) : Type 0 where
    pub direct : Returns (func u.arena.arena) λ x. IsNew u (x.0, bytes)
    pub block :
        Returns
          (ops.allocate_aligned (block_bytes u.arena) u.arena.arena)
          λ x. IsNew u (x.0, block_bytes u.arena)

  module _ (force_arena : Bool) (cpu : ℕ) (arena_free : Bool) (pick : ℕ) (u : Shared A) (s : Shard)
      (v : IsShared ops u) (g : Gives u) (taken : get_elem? u.arena.shards pick ≡ some s) where
    allocate_impl-Returns :
        Returns
          (allocate_impl ops func bytes force_arena cpu arena_free pick u.arena)
          λ r. r.1.arena_allocated_and_unused ≡ ops.allocated_and_unused r.1.arena
    unfolding allocate_impl from_arena reload finish fixup
    allocate_impl-Returns =
        let c = u.arena in
        let exact = c.arena_allocated_and_unused in
        let (first, e) = first_of c.shards pick s taken in
        let (x, ran, _) = g.direct in
        let (y, gave, _) = g.block in
        let idle = cpu == 0 && first.allocated_and_unused == 0 && arena_free in
        let direct = ltb (c.shard_block_size / 4) bytes || force_arena || idle in
        let sound : (exact == ops.allocated_and_unused c.arena) ≡ true =
          ground (arith, v.counted) in
        elim (Bool-cases direct) [
          | inl arena ↦ rw (e, arena, ran) (_, refl, refl)
          | inr shard ↦ elim (Bool-cases (ltb s.allocated_and_unused bytes)) [
            | inr long ↦ rw (e, shard, taken, long) (_, refl, v.counted)
            | inl short ↦ elim (Bool-cases (leb bytes exact && ops.is_in_inline_block c.arena)) [
              | inl inline ↦ rw (e, shard, taken, short, sound, inline, ran) (_, refl, refl)
              | inr renewed ↦ rw (e, shard, taken, short, sound, renewed, gave) (_, refl, refl)
            ]
          ]
        ]

    served-IsShared :
        (r : ℕ × ConcurrentNvmArena A)
        → r.1.arena_allocated_and_unused ≡ ops.allocated_and_unused r.1.arena
        → Serves ops func bytes pick u.arena s r
        → IsShared ops (record { arena = r.1; issued = (r.0, bytes) ∷ u.issued })
    served-IsShared r counted (by_arena given same) =
        let (x, ran, direct) = g.direct in
        let at = ok_inj x (r.0, r.1.arena) (sym ran ∙ given) in
        let new = subst (λ (z : ℕ × A). IsNew u (z.0, bytes)) at direct in
        direct-IsShared ops u (r.0, bytes) r.1 v new same counted
    served-IsShared r counted (by_shard {s'} cut same kept) =
        let small =
          All-get_elem Ends (frees u) pick (free s) v.ends
            (get_elem?-map free u.arena.shards pick s taken) in
        cut-IsShared ops u pick (free s) (r.0, bytes) s' r.1 v (Cuts-old ops u pick s v taken)
          cut.inside cut.left cut.apart small same counted
    served-IsShared r counted (by_block {lo} {s'} given cut same) =
        let size = block_bytes u.arena in
        let (y, gave, block) = g.block in
        let at = ok_inj y (lo, r.1.arena) (sym gave ∙ given) in
        let new = subst (λ (z : ℕ × A). IsNew u (z.0, size)) at block in
        let small = ops.ends size lo u.arena.arena r.1.arena given in
        cut-IsShared ops u pick (lo, size) (r.0, bytes) s' r.1 v (Cuts-new u pick (lo, size) new)
          cut.inside cut.left cut.apart small same counted

    pub call-IsShared :
        Returns
          (allocate_impl ops func bytes force_arena cpu arena_free pick u.arena)
          λ r. IsShared ops (record { arena = r.1; issued = (r.0, bytes) ∷ u.issued })
    call-IsShared =
        let (r, run, counted) = allocate_impl-Returns in
        let small =
          All-get_elem Ends (frees u) pick (free s) v.ends
            (get_elem?-map free u.arena.shards pick s taken) in
        let served =
          allocate_impl-Serves ops func bytes pick u.arena force_arena cpu arena_free s r taken
            small run in
        (r, run, served-IsShared r counted served)

-- A call, with any outcome of the locks.
pub data Step {A : Type 0} (ops : Arena A) (u w : Shared A) : Type 0 where
  call :
      (func : A → Run (ℕ × A)) (bytes : ℕ) (force_arena : Bool) (cpu : ℕ) (arena_free : Bool)
      (pick : ℕ) (s : Shard) (r : ℕ × ConcurrentNvmArena A)
      → Gives ops func bytes u
      → get_elem? u.arena.shards pick ≡ some s
      → allocate_impl ops func bytes force_arena cpu arena_free pick u.arena ≡ ok r
      → w ≡ record { arena = r.1; issued = (r.0, bytes) ∷ u.issued }
      → Step ops u w

pub data Reach {A : Type 0} (ops : Arena A) (u : Shared A) : Shared A → Type 0 where
  here : Reach ops u u
  later : {w x : Shared A} → Reach ops u w → Step ops w x → Reach ops u x

module _ {A : Type 0} {ops : Arena A} where
  Step-IsShared : {u w : Shared A} → Step ops u w → IsShared ops u → IsShared ops w
  Step-IsShared {u} (call func bytes force_arena cpu arena_free pick s r g taken run e) v =
      let (x, ran, shared) =
        call-IsShared ops func bytes force_arena cpu arena_free pick u s v g taken in
      let same = ok_inj x r (sym ran ∙ run) in
      let state : ℕ × ConcurrentNvmArena A → Shared A =
        λ y. record { arena = y.1; issued = (y.0, bytes) ∷ u.issued } in
      subst (λ y. IsShared ops y) (sym e) (subst (λ y. IsShared ops (state y)) same shared)

  Reach-IsShared : {u w : Shared A} → Reach ops u w → IsShared ops u → IsShared ops w
  Reach-IsShared here v = v
  Reach-IsShared (later r step) v = Step-IsShared step (Reach-IsShared r v)

  -- Let the pieces handed out be disjoint, and apart from the free bytes of the shards, which are
  -- disjoint and end below 2 ^ 64, and let the recorded count be the one of the arena. After any series
  -- of calls of `AllocateImpl`, whatever the locks decide and whichever shards are taken, a further call
  -- on any shard returns, and all this then holds with the new piece among them, as long as the arena
  -- gives each call memory that is apart from all memory in use.
  pub allocate_impl-IsShared :
      {u w : Shared A} (func : A → Run (ℕ × A)) (bytes : ℕ) (force_arena : Bool) (cpu : ℕ)
      (arena_free : Bool) (pick : ℕ) (s : Shard)
      → IsShared ops u
      → Reach ops u w
      → Gives ops func bytes w
      → get_elem? w.arena.shards pick ≡ some s
      → Returns
          (allocate_impl ops func bytes force_arena cpu arena_free pick w.arena)
          λ r. IsShared ops (record { arena = r.1; issued = (r.0, bytes) ∷ w.issued })
  allocate_impl-IsShared {w} func bytes force_arena cpu arena_free pick s v reach g taken =
      call-IsShared ops func bytes force_arena cpu arena_free pick w s (Reach-IsShared reach v) g
        taken
