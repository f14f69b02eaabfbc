-- ===== src/Memory/Laws.antt =====
-- What a stretch of an array holds, after loads and stores.
use rocksdb_pmdk.Base.{
  ℕ, suc, ◌+◌, ◌<◌, ◌≤◌, ◌^◌, ◌≡◌, refl, ◌∙◌, ◌⊎◌, [], ◌∷◌, ◌++◌, Bytes, length, ok, arith, le→leb,
}
use rocksdb_pmdk.Memory.Defs.{Buffer, Fixed64, read, write, load, store, load64}

-- From address `a` on stand the bytes `xs`.
abbrev pub Holds : (ℕ → ℕ) → ℕ → Bytes → Type 0
Holds m a [] = Unit
Holds m a (x ∷ xs) = (m a ≡ x) × Holds m (suc a) xs

pub read-Holds : (m : ℕ → ℕ) (a : ℕ) (xs : Bytes) → Holds m a xs → read m a (length xs) ≡ xs
unfolding read
read-Holds m a [] h = refl
read-Holds m a (x ∷ xs) h = ground (arith, read-Holds m (suc a) xs)

pub Holds-at : (m : ℕ → ℕ) (a b : ℕ) (xs : Bytes) → a ≡ b → Holds m a xs → Holds m b xs
Holds-at m a b xs e h = rw (← e) h

pub Holds-left : (m : ℕ → ℕ) (a : ℕ) (xs ys : Bytes) → Holds m a (xs ++ ys) → Holds m a xs
Holds-left m a [] ys h = tt
Holds-left m a (x ∷ xs) ys h = (h.0, Holds-left m (suc a) xs ys h.1)

pub Holds-right :
    (m : ℕ → ℕ) (a : ℕ) (xs ys : Bytes) → Holds m a (xs ++ ys) → Holds m (a + length xs) ys
Holds-right m a [] ys h = Holds-at m a (a + 0) ys (omega arith) h
Holds-right m a (x ∷ xs) ys h =
    Holds-at m (suc a + length xs) (a + length (x ∷ xs)) ys (omega arith)
      (Holds-right m (suc a) xs ys h.1)

pub Holds-append :
    (m : ℕ → ℕ) (a : ℕ) (xs ys : Bytes)
    → Holds m a xs
    → Holds m (a + length xs) ys
    → Holds m a (xs ++ ys)
Holds-append m a [] ys h k = Holds-at m (a + 0) a ys (omega arith) k
Holds-append m a (x ∷ xs) ys h k = (
  h.0,
  Holds-append m (suc a) xs ys h.1
      (Holds-at m (a + length (x ∷ xs)) (suc a + length xs) ys (omega arith) k),
)

pub write_outside :
    (m : ℕ → ℕ) (a : ℕ) (xs : Bytes) (b : ℕ) → (b < a) ⊎ (a + length xs ≤ b) → write m a xs b ≡ m b
unfolding write
write_outside m a [] b h = refl
write_outside m a (x ∷ xs) b h = ground (arith, write_outside m (suc a) xs b)

pub Holds-agree :
    (m m' : ℕ → ℕ) (a : ℕ) (xs : Bytes)
    → ((i : ℕ) → a ≤ i → m' i ≡ m i)
    → Holds m a xs
    → Holds m' a xs
Holds-agree m m' a [] same h = tt
Holds-agree m m' a (x ∷ xs) same h =
    (same a (omega arith) ∙ h.0, Holds-agree m m' (suc a) xs (λ i le. same i (omega arith)) h.1)

pub Holds-write_self : (m : ℕ → ℕ) (a : ℕ) (xs : Bytes) → Holds (write m a xs) a xs
unfolding write
Holds-write_self m a [] = tt
Holds-write_self m a (x ∷ xs) = (
  ground arith,
  Holds-agree (write m (suc a) xs) (write m a (x ∷ xs)) (suc a) xs (λ i le. ground arith)
      (Holds-write_self m (suc a) xs),
)

-- A stretch that a store does not touch stays.
pub Holds-write :
    (m : ℕ → ℕ) (a : ℕ) (xs : Bytes) (b : ℕ) (ys : Bytes)
    → (b + length ys ≤ a) ⊎ (a + length xs ≤ b)
    → Holds m b ys
    → Holds (write m a xs) b ys
Holds-write m a xs b [] h k = tt
Holds-write m a xs b (y ∷ ys) h k =
    (ground (arith, write_outside m a xs b), Holds-write m a xs (suc b) ys (ground arith) k.1)

pub load-Holds :
    (b : Buffer) (a : ℕ) (xs : Bytes)
    → a + length xs ≤ b.size
    → Holds b.cells a xs
    → load b a (length xs) ≡ ok xs
unfolding load
load-Holds b a xs fits h = rw (le→leb _ _ fits, read-Holds b.cells a xs h)

pub store-ok :
    (b : Buffer) (a : ℕ) (xs : Bytes)
    → a + length xs ≤ b.size
    → store b a xs ≡ ok (record b { cells = write b.cells a xs })
unfolding store
store-ok b a xs fits = rw (le→leb _ _ fits)

module _ ⦃fixed : Fixed64⦄ where
  pub load64-Holds :
      (b : Buffer) (a n : ℕ)
      → n < 2 ^ 64
      → a + 8 ≤ b.size
      → Holds b.cells a (fixed.encode n)
      → load64 b a ≡ ok n
  unfolding load64
  load64-Holds b a n small fits h =
      let e : load b a 8 ≡ ok (fixed.encode n) =
        rw (fixed.length-encode n) at
          (load-Holds b a (fixed.encode n) (omega (arith, fixed.length-encode n)) h) in
      rw (e, fixed.decode-encode n small)
