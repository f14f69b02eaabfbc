-- ===== src/HashMap/Chains.antt =====
-- The map as a list of buckets, and `put` on it.
use rocksdb_pmdk.Base.{
  ℕ, zero, suc, ◌+◌, ◌%◌, ◌<◌, ◌≤◌, ◌^◌, ◌≡◌, refl, subst, ap, ◌∙◌, ◌≢◌, true, false, none, some,
  List, [], ◌∷◌, length, length-append, get_elem?, get_elem?-lt, set, length-set, replicate,
  length-replicate, ◌==◌, ok, fault, alloc_error, arith, Returns, All, sym,
}
use mathlib.Core.List.{flatten}
use native.Mathlib.Nat.{mod-lt, mod-eq_of_lt, zero-add}
use rocksdb_pmdk.HashMap.{PmemHashMap, init, put}
use rocksdb_pmdk.HashMap.Heap.{
  Ptr, null, Node, Store, update, Seg, nil, cons, update_other, Extends, Seg-Extends,
  update-Extends, update_self,
}

module _ {C : Type 0} where
  -- Each head of the table leads through its bucket.
  abbrev pub Chains : Store C → List Ptr → List (List C) → Type 0
  Chains h [] [] = Unit
  Chains h (p ∷ ps) (b ∷ bs) = Seg h p b × Chains h ps bs
  Chains h ps bs = ⊥

  -- `c` put in front of the bucket `i`.
  abbrev pub cons_at : ℕ → C → List (List C) → List (List C)
  cons_at i c [] = []
  cons_at zero c (b ∷ bs) = (c ∷ b) ∷ bs
  cons_at (suc i) c (b ∷ bs) = b ∷ cons_at i c bs

  -- Every content stands in the bucket of its hash, from the bucket `i` on.
  abbrev pub Placed : (C → ℕ) → ℕ → ℕ → List (List C) → Type 0
  Placed hash_code n i [] = Unit
  Placed hash_code n i (b ∷ bs) = All (λ c. hash_code c % n ≡ i) b × Placed hash_code n (suc i) bs

  pub Chains-length :
      (h : Store C) (ps : List Ptr) (bs : List (List C)) → Chains h ps bs → length ps ≡ length bs
  Chains-length h [] [] c = refl
  Chains-length h (p ∷ ps) (b ∷ bs) c = ap suc (Chains-length h ps bs c.1)
  Chains-length h ps bs c = ground arith

  -- The bucket of a head is one of the buckets.
  pub Chains-get_elem? :
      (h : Store C) (ps : List Ptr) (bs : List (List C)) (i : ℕ) (p : Ptr)
      → Chains h ps bs
      → get_elem? ps i ≡ some p
      → (b : List C) × Seg h p b × (length b ≤ length (flatten bs))
  unfolding flatten
  Chains-get_elem? h (q ∷ ps) (b ∷ bs) zero p c e =
      let same : q ≡ p = cc in
      (b, subst (λ (r : Ptr). Seg h r b) same c.0, omega (arith, length-append b (flatten bs)))
  Chains-get_elem? h (q ∷ ps) (b ∷ bs) (suc i) p c e =
      let (b', s, le) = Chains-get_elem? h ps bs i p c.1 e in
      (b', s, omega (arith, length-append b (flatten bs)))
  Chains-get_elem? h ps bs i p c e = absurd (ground arith)

  Chains-Extends :
      {h g : Store C} (ps : List Ptr) (bs : List (List C))
      → Extends h g
      → Chains h ps bs
      → Chains g ps bs
  Chains-Extends [] [] keep c = tt
  Chains-Extends (p ∷ ps) (b ∷ bs) keep c = (Seg-Extends keep c.0, Chains-Extends ps bs keep c.1)
  Chains-Extends ps bs keep c = ground arith

  Chains-cons_at :
      (h : Store C) (ps : List Ptr) (bs : List (List C)) (i : ℕ) (c : C) (a head : Ptr)
      → Chains h ps bs
      → get_elem? ps i ≡ some head
      → a ≢ null
      → h a ≡ none
      → Chains (update h a (record { next = head; p_content = c })) (set ps i a) (cons_at i c bs)
  Chains-cons_at h (p ∷ ps) (b ∷ bs) zero c a head chains e ne free =
      let n : Node C = record { next = head; p_content = c } in
      let same : p ≡ head = cc in
      let keep = update-Extends h a n free in
      (
        cons ne (update_self h a n)
            (Seg-Extends keep (subst (λ (q : Ptr). Seg h q b) same chains.0)),
        Chains-Extends ps bs keep chains.1,
      )
  Chains-cons_at h (p ∷ ps) (b ∷ bs) (suc i) c a head chains e ne free = (
    Seg-Extends (update-Extends h a _ free) chains.0,
    Chains-cons_at h ps bs i c a head chains.1 e ne free,
  )
  Chains-cons_at h ps bs i c a head chains e ne free = ground arith

  Placed-cons_at :
      (hash_code : C → ℕ) (n k i : ℕ) (c : C) (bs : List (List C))
      → hash_code c % n ≡ k + i
      → Placed hash_code n k bs
      → Placed hash_code n k (cons_at i c bs)
  Placed-cons_at hash_code n k i c [] e h = tt
  Placed-cons_at hash_code n k zero c (b ∷ bs) e h = ((omega arith, h.0), h.1)
  Placed-cons_at hash_code n k (suc i) c (b ∷ bs) e h =
      (h.0, Placed-cons_at hash_code n (suc k) i c bs (omega arith) h.1)

  Chains-replicate : (h : Store C) (n : ℕ) → Chains h (replicate n null) (replicate n [])
  Chains-replicate h zero = tt
  Chains-replicate h (suc n) = (nil, Chains-replicate h n)

  Placed-replicate : (hash_code : C → ℕ) (n k i : ℕ) → Placed hash_code n k (replicate i [])
  Placed-replicate hash_code n k zero = tt
  Placed-replicate hash_code n k (suc i) = (tt, Placed-replicate hash_code n (suc k) i)

-- The map stands for the buckets `bs`: the array has the length of the field, each head leads
-- through its bucket, and each content stands in the bucket of its hash.
pub record IsMap {C F : Type 0} (hash_code : C → ℕ) (h : Store C) (m : PmemHashMap F)
    (bs : List (List C)) : Type 0 where
  pub width : length m.tab ≡ m.tab_len
  pub roomy : 0 < m.tab_len
  pub chains : Chains h m.tab bs
  pub placed : Placed hash_code m.tab_len 0 bs

module _ {C F : Type 0} (hash_code : C → ℕ) (h : Store C) (m : PmemHashMap F) (c : C) where
  pub put-ok :
      (a head : Ptr)
      → 0 < m.tab_len
      → get_elem? m.tab (hash_code c % m.tab_len) ≡ some head
      → put hash_code (some a) h m c
        ≡ ok (
          update h a (record { next = head; p_content = c }),
          record m { tab = set m.tab (hash_code c % m.tab_len) a },
        )
  unfolding put
  put-ok a head roomy e =
      let i = hash_code c % m.tab_len in
      let twice : i % m.tab_len ≡ i = mod-eq_of_lt (mod-lt (hash_code c) roomy) in
      let nonzero : (m.tab_len == 0) ≡ false = ground arith in rw (nonzero, twice, e)

  -- The map and the heap after a `put` at the fresh address `a`.
  pub record Inserted (bs : List (List C)) (a : Ptr) (r : Store C × PmemHashMap F) : Type 0 where
    pub is_map : IsMap hash_code r.0 r.1 (cons_at (hash_code c % m.tab_len) c bs)
    pub others : (p : Ptr) → p ≢ a → r.0 p ≡ h p
    pub same_size : r.1.size ≡ m.size

  -- A put on a map with buckets, at a free address that is not null, returns; the content is then
  -- the first of the bucket of its hash, every content stands in the bucket of its hash, and no
  -- other node has changed.
  pub put-Inserted :
      (bs : List (List C)) (a : Ptr)
      → IsMap hash_code h m bs
      → a ≢ null
      → h a ≡ none
      → Returns (put hash_code (some a) h m c) (Inserted bs a)
  put-Inserted bs a v ne free =
      let i = hash_code c % m.tab_len in
      let (head, e) = get_elem?-lt m.tab i (omega (arith, v.width, mod-lt (hash_code c) v.roomy)) in
      (
        (_, _),
        put-ok a head v.roomy e,
        record {
          is_map = record {
            width = length-set m.tab i a ∙ v.width;
            roomy = v.roomy;
            chains = Chains-cons_at h m.tab bs i c a head v.chains e ne free;
            placed = Placed-cons_at hash_code m.tab_len 0 i c bs (sym (zero-add i)) v.placed;
          };
          others = λ p other. update_other h a _ p other;
          same_size = refl;
        },
      )

-- A `put` on a map with buckets whose node cannot be allocated throws.
pub put-alloc_error :
    {C F : Type 0} (hash_code : C → ℕ) (h : Store C) (m : PmemHashMap F) (c : C)
    → length m.tab ≡ m.tab_len
    → 0 < m.tab_len
    → put hash_code none h m c ≡ fault alloc_error
unfolding put
put-alloc_error hash_code h m c width roomy =
    let i = hash_code c % m.tab_len in
    let twice : i % m.tab_len ≡ i = mod-eq_of_lt (mod-lt (hash_code c) roomy) in
    let nonzero : (m.tab_len == 0) ≡ false = ground arith in
    let (head, e) = get_elem?-lt m.tab i (omega (arith, mod-lt (hash_code c) roomy)) in
    rw (nonzero, twice, e)

-- init with fewer than 2 ^ 32 buckets, and at least one, gives a map with empty buckets and size
-- 0.
pub init-IsMap :
    {C F : Type 0} (hash_code : C → ℕ) (scale : ℕ → F → ℕ) (h : Store C) (load_factor : F)
    (tab_len : ℕ)
    → 0 < tab_len
    → tab_len < 2 ^ 32
    → Returns
        (init scale true load_factor tab_len)
        λ m. IsMap hash_code h m (replicate tab_len []) × (m.size ≡ 0)
unfolding init
init-IsMap hash_code scale h load_factor tab_len pos small =
    let e : tab_len % 2 ^ 32 ≡ tab_len = omega arith in
    (
      _,
      refl,
      (
        record {
          width = length-replicate tab_len null ∙ sym e;
          roomy = omega arith;
          chains = Chains-replicate h tab_len;
          placed = Placed-replicate hash_code (tab_len % 2 ^ 32) 0 tab_len;
        },
        refl,
      ),
    )
