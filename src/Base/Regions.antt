-- ===== src/Base/Regions.antt =====
-- Pieces of memory: an address and a number of bytes.
pub mod Updates
use Prim.Native.Nat.{ℕ, ◌+◌, ◌≤◌}
use mathlib.Core.Logic.{◌⊎◌, inl, inr}
use mathlib.Core.List.{List, [], ◌∷◌}
use native.Mathlib.Omega.{arith}

-- No byte is in both.
abbrev pub Apart : ℕ × ℕ → ℕ × ℕ → Type 0
Apart p q = (p.0 + p.1 ≤ q.0) ⊎ (q.0 + q.1 ≤ p.0)

abbrev pub ApartFrom : ℕ × ℕ → List (ℕ × ℕ) → Type 0
ApartFrom p [] = Unit
ApartFrom p (q ∷ qs) = Apart p q × ApartFrom p qs

abbrev pub AreApart : List (ℕ × ℕ) → Type 0
AreApart [] = Unit
AreApart (p ∷ ps) = ApartFrom p ps × AreApart ps

abbrev pub IsWithin : ℕ × ℕ → ℕ × ℕ → Type 0
IsWithin p q = (q.0 ≤ p.0) × (p.0 + p.1 ≤ q.0 + q.1)

pub Apart-sym : (p q : ℕ × ℕ) → Apart p q → Apart q p
Apart-sym p q (inl h) = inr h
Apart-sym p q (inr h) = inl h

pub Apart-IsWithin : (p q r : ℕ × ℕ) → IsWithin p q → Apart q r → Apart p r
Apart-IsWithin p q r w (inl h) = inl (omega arith)
Apart-IsWithin p q r w (inr h) = inr (omega arith)

-- What lies in a piece is apart from whatever the piece is apart from.
pub ApartFrom-IsWithin :
    (p q : ℕ × ℕ) (rs : List (ℕ × ℕ)) → IsWithin p q → ApartFrom q rs → ApartFrom p rs
ApartFrom-IsWithin p q [] w h = tt
ApartFrom-IsWithin p q (r ∷ rs) w h = (Apart-IsWithin p q r w h.0, ApartFrom-IsWithin p q rs w h.1)
