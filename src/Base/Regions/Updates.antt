-- ===== src/Base/Regions/Updates.antt =====
-- Disjoint pieces of which one is replaced.
use Prim.Native.Nat.{ℕ, zero, suc}
use mathlib.Core.List.{List, [], ◌∷◌}
use mathlib.Core.Option.{some}
use mathlib.Core.Path.{◌≡◌}
use rocksdb_pmdk.Base.Lists.{get_elem?, set}
use rocksdb_pmdk.Base.Regions.{
  Apart, ApartFrom, AreApart, IsWithin, Apart-sym, Apart-IsWithin, ApartFrom-IsWithin,
}

-- The piece is apart from all others, where number `i` does not count.
abbrev pub Beside : ℕ → ℕ × ℕ → List (ℕ × ℕ) → Type 0
Beside i p [] = Unit
Beside zero p (q ∷ qs) = ApartFrom p qs
Beside (suc i) p (q ∷ qs) = Apart p q × Beside i p qs

-- Every piece of the first list is apart from every piece of the second.
abbrev pub AllApart : List (ℕ × ℕ) → List (ℕ × ℕ) → Type 0
AllApart [] qs = Unit
AllApart (p ∷ ps) qs = ApartFrom p qs × AllApart ps qs

pub ApartFrom-get_elem :
    (p q : ℕ × ℕ) (qs : List (ℕ × ℕ)) (i : ℕ) → ApartFrom p qs → get_elem? qs i ≡ some q → Apart p q
ApartFrom-get_elem p q [] i h e = absurd (cc)
ApartFrom-get_elem p q (x ∷ qs) zero h e = let same : x ≡ q = cc in rw same at h.0
ApartFrom-get_elem p q (x ∷ qs) (suc i) h e = ApartFrom-get_elem p q qs i h.1 e

pub AreApart-Beside :
    (p : ℕ × ℕ) (qs : List (ℕ × ℕ)) (i : ℕ) → AreApart qs → get_elem? qs i ≡ some p → Beside i p qs
AreApart-Beside p [] i h e = tt
AreApart-Beside p (x ∷ qs) zero h e = let same : x ≡ p = cc in rw same at h.0
AreApart-Beside p (x ∷ qs) (suc i) h e =
    (Apart-sym x p (ApartFrom-get_elem x p qs i h.0 e), AreApart-Beside p qs i h.1 e)

pub ApartFrom-Beside : (p : ℕ × ℕ) (qs : List (ℕ × ℕ)) (i : ℕ) → ApartFrom p qs → Beside i p qs
ApartFrom-Beside p [] i h = tt
ApartFrom-Beside p (x ∷ qs) zero h = h.1
ApartFrom-Beside p (x ∷ qs) (suc i) h = (h.0, ApartFrom-Beside p qs i h.1)

pub Beside-IsWithin :
    (p area : ℕ × ℕ) (qs : List (ℕ × ℕ)) (i : ℕ)
    → IsWithin p area
    → Beside i area qs
    → Beside i p qs
Beside-IsWithin p area [] i w h = tt
Beside-IsWithin p area (x ∷ qs) zero w h = ApartFrom-IsWithin p area qs w h
Beside-IsWithin p area (x ∷ qs) (suc i) w h =
    (Apart-IsWithin p area x w h.0, Beside-IsWithin p area qs i w h.1)

pub ApartFrom-set :
    (p q : ℕ × ℕ) (qs : List (ℕ × ℕ)) (i : ℕ) → Beside i p qs → Apart p q → ApartFrom p (set qs i q)
ApartFrom-set p q [] i h a = tt
ApartFrom-set p q (x ∷ qs) zero h a = (a, h)
ApartFrom-set p q (x ∷ qs) (suc i) h a = (h.0, ApartFrom-set p q qs i h.1 a)

pub AreApart-set :
    (q : ℕ × ℕ) (qs : List (ℕ × ℕ)) (i : ℕ) → AreApart qs → Beside i q qs → AreApart (set qs i q)
AreApart-set q [] i h b = tt
AreApart-set q (x ∷ qs) zero h b = (b, h.1)
AreApart-set q (x ∷ qs) (suc i) h b = (
  ApartFrom-set x q qs i (ApartFrom-Beside x qs i h.0) (Apart-sym q x b.0),
  AreApart-set q qs i h.1 b.1,
)

pub AllApart-set :
    (q : ℕ × ℕ) (ps qs : List (ℕ × ℕ)) (i : ℕ)
    → AllApart ps qs
    → ApartFrom q ps
    → AllApart ps (set qs i q)
AllApart-set q [] qs i h a = tt
AllApart-set q (p ∷ ps) qs i h a = (
  ApartFrom-set p q qs i (ApartFrom-Beside p qs i h.0) (Apart-sym q p a.0),
  AllApart-set q ps qs i h.1 a.1,
)

pub AllApart-ApartFrom :
    (q : ℕ × ℕ) (ps qs : List (ℕ × ℕ)) (i : ℕ)
    → AllApart ps qs
    → get_elem? qs i ≡ some q
    → ApartFrom q ps
AllApart-ApartFrom q [] qs i h e = tt
AllApart-ApartFrom q (p ∷ ps) qs i h e =
    (Apart-sym p q (ApartFrom-get_elem p q qs i h.0 e), AllApart-ApartFrom q ps qs i h.1 e)
