-- ===== src/Concurrent/Sharing.antt =====
-- Pieces and the free bytes of the shards, before and behind a call of `AllocateImpl`.
use rocksdb_pmdk.Base.{
  map-set, get_elem?-map, All-set, ℕ, ◌+◌, ◌<◌, ◌^◌, ◌≡◌, List, ◌∷◌, map, get_elem?, set, some, All,
  ◌∙◌, ap, arith,
}
use rocksdb_pmdk.Base.Regions.{Apart, ApartFrom, AreApart, IsWithin, ApartFrom-IsWithin}
use rocksdb_pmdk.Base.Regions.Updates.{
  Beside, AllApart, AreApart-Beside, ApartFrom-Beside, Beside-IsWithin, ApartFrom-set, AreApart-set,
  AllApart-set, AllApart-ApartFrom,
}
use rocksdb_pmdk.Concurrent.{Arena, Shard, ConcurrentNvmArena}

-- The free bytes of a shard.
abbrev pub free : Shard → ℕ × ℕ
free s = (s.free_begin, s.allocated_and_unused)

abbrev pub Ends : ℕ × ℕ → Type 0
Ends p = p.0 + p.1 < 2 ^ 64

-- The arena, and the pieces that it has handed out.
pub record Shared (A : Type 0) : Type 0 where
  pub arena : ConcurrentNvmArena A
  pub issued : List (ℕ × ℕ)

module _ {A : Type 0} where
  abbrev pub frees : Shared A → List (ℕ × ℕ)
  frees u = map free u.arena.shards

  abbrev pub IsNew : Shared A → ℕ × ℕ → Type 0
  IsNew u p = ApartFrom p (frees u) × ApartFrom p u.issued

  -- The area is apart from all but the free bytes of shard `pick`.
  pub record Cuts (u : Shared A) (pick : ℕ) (area : ℕ × ℕ) : Type 0 where
    others : Beside pick area (frees u)
    pieces : ApartFrom area u.issued

  pub Cuts-new : (u : Shared A) (pick : ℕ) (area : ℕ × ℕ) → IsNew u area → Cuts u pick area
  Cuts-new u pick area fresh = record {
    others = ApartFrom-Beside area (frees u) pick fresh.0;
    pieces = fresh.1;
  }

module _ {A : Type 0} (ops : Arena A) where
  -- The assertion of `AllocateImpl` holds, and the pieces are disjoint, and so are they from the free
  -- bytes of the shards.
  pub record IsShared (u : Shared A) : Type 0 where
    pub counted : u.arena.arena_allocated_and_unused ≡ ops.allocated_and_unused u.arena.arena
    pub issued_apart : AreApart u.issued
    pub frees_apart : AreApart (frees u)
    pub apart : AllApart u.issued (frees u)
    pub ends : All Ends (frees u)

  pub Cuts-old :
      (u : Shared A) (pick : ℕ) (s : Shard)
      → IsShared u
      → get_elem? u.arena.shards pick ≡ some s
      → Cuts u pick (free s)
  Cuts-old u pick s v e =
      let at = get_elem?-map free u.arena.shards pick s e in
      record {
        others = AreApart-Beside (free s) (frees u) pick v.frees_apart at;
        pieces = AllApart-ApartFrom (free s) u.issued (frees u) pick v.apart at;
      }

  -- The shard `pick` becomes the rest of the area, and the piece is handed out.
  pub cut-IsShared :
      (u : Shared A) (pick : ℕ) (area p : ℕ × ℕ) (s : Shard) (c : ConcurrentNvmArena A)
      → IsShared u
      → Cuts u pick area
      → IsWithin p area
      → IsWithin (free s) area
      → Apart p (free s)
      → Ends area
      → c.shards ≡ set u.arena.shards pick s
      → c.arena_allocated_and_unused ≡ ops.allocated_and_unused c.arena
      → IsShared (record { arena = c; issued = p ∷ u.issued })
  cut-IsShared u pick area p s c v cuts piece rest away small shards counted =
      let own = Beside-IsWithin p area (frees u) pick piece cuts.others in
      let left = Beside-IsWithin (free s) area (frees u) pick rest cuts.others in
      let pieces = ApartFrom-IsWithin (free s) area u.issued rest cuts.pieces in
      let all : map free c.shards ≡ set (frees u) pick (free s) =
        ap (map free) shards ∙ map-set free u.arena.shards pick s in
      record {
        counted = counted;
        issued_apart = (ApartFrom-IsWithin p area u.issued piece cuts.pieces, v.issued_apart);
        frees_apart = rw all (AreApart-set (free s) (frees u) pick v.frees_apart left);
        apart = rw all (
          ApartFrom-set p (free s) (frees u) pick own away,
          AllApart-set (free s) u.issued (frees u) pick v.apart pieces,
        );
        ends = rw all (All-set Ends (frees u) pick (free s) v.ends (omega arith));
      }

  -- The arena hands out new memory, and the shards stay.
  pub direct-IsShared :
      (u : Shared A) (p : ℕ × ℕ) (c : ConcurrentNvmArena A)
      → IsShared u
      → IsNew u p
      → c.shards ≡ u.arena.shards
      → c.arena_allocated_and_unused ≡ ops.allocated_and_unused c.arena
      → IsShared (record { arena = c; issued = p ∷ u.issued })
  direct-IsShared u p c v new shards counted =
      let all : map free c.shards ≡ frees u = ap (map free) shards in
      record {
        counted = counted;
        issued_apart = (new.1, v.issued_apart);
        frees_apart = rw all v.frees_apart;
        apart = rw all (new.0, v.apart);
        ends = rw all v.ends;
      }
