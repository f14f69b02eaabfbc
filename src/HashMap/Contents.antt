-- ===== src/HashMap/Contents.antt =====
-- `getAll` reads the buckets, and a series of `put`s keeps exactly what was put.
use rocksdb_pmdk.Base.{
  ℕ, zero, suc, ◌+◌, ◌<◌, ◌%◌, ◌≡◌, refl, ◌∙◌, ap, sym, ◌≢◌, none, some, false, map, List, [], ◌∷◌,
  ◌++◌, length, length-append, take-all, ◌==◌, Run, ok, ◌>>=◌, arith, Returns, All,
}
use mathlib.Core.List.{append_assoc, append-nil, flatten, Perm, perm_middle}
use mathlib.Core.List.Perm
use native.Mathlib.Nat.{mod-lt}
use rocksdb_pmdk.HashMap.{PmemHashMap, walk, walk_all, get_all, put}
use rocksdb_pmdk.HashMap.Chains.{Chains, IsMap, cons_at, put-Inserted, Chains-length}
use rocksdb_pmdk.HashMap.Heap.{Ptr, null, Store, deref, Seg, nil, cons}

module _ {C : Type 0} (h : Store C) where
  walk-Seg :
      (fuel : ℕ) {p : Ptr} {xs : List C} (content_vec : List C)
      → Seg h p xs
      → length xs < fuel
      → walk fuel h p content_vec ≡ ok (content_vec ++ xs)
  unfolding walk deref
  walk-Seg zero content_vec s enough = absurd (omega arith)
  walk-Seg (suc fuel) content_vec nil enough = ap ok (sym (append-nil content_vec))
  walk-Seg (suc fuel) {xs = xs} content_vec (cons {p} {c = c} {xs = rest} ne e s) enough =
      let live : (p == null) ≡ false = ground arith in
      rw (live, e)
        (walk-Seg fuel (content_vec ++ c ∷ []) s (omega arith)
          ∙ ap ok (append_assoc content_vec (c ∷ []) rest))

  walk_all-Chains :
      (fuel : ℕ) (ps : List Ptr) (bs : List (List C)) (content_vec : List C)
      → Chains h ps bs
      → length (flatten bs) < fuel
      → walk_all fuel h ps content_vec ≡ ok (content_vec ++ flatten bs)
  unfolding walk_all flatten
  walk_all-Chains fuel [] [] content_vec chains enough = ap ok (sym (append-nil content_vec))
  walk_all-Chains fuel (p ∷ ps) (b ∷ bs) content_vec chains enough =
      let len = length-append b (flatten bs) in
      rw (walk-Seg fuel content_vec chains.0 (omega arith)) (
        walk_all-Chains fuel ps bs (content_vec ++ b) chains.1 (omega arith)
        ∙ ap ok (append_assoc content_vec b (flatten bs)))
  walk_all-Chains fuel ps bs content_vec chains enough = ground arith

flatten-cons_at :
    {C : Type 0} (i : ℕ) (c : C) (bs : List (List C))
    → i < length bs
    → Perm (flatten (cons_at i c bs)) (c ∷ flatten bs)
unfolding flatten
flatten-cons_at i c [] lt = absurd (omega arith)
flatten-cons_at zero c (b ∷ bs) lt = Perm.refl _
flatten-cons_at (suc i) c (b ∷ bs) lt =
    Perm.trans (Perm.append (Perm.refl b) (flatten-cons_at i c bs (omega arith)))
      (perm_middle b (flatten bs))

length-flatten-cons_at :
    {C : Type 0} (i : ℕ) (c : C) (bs : List (List C))
    → i < length bs
    → length (flatten (cons_at i c bs)) ≡ suc (length (flatten bs))
unfolding flatten
length-flatten-cons_at i c [] lt = absurd (omega arith)
length-flatten-cons_at zero c (b ∷ bs) lt = refl
length-flatten-cons_at (suc i) c (b ∷ bs) lt = omega (
  arith,
  length-append b (flatten (cons_at i c bs)),
  length-append b (flatten bs),
  length-flatten-cons_at i c bs (omega arith),
)

module _ {C F : Type 0} (hash_code : C → ℕ) where
  -- On a map of the buckets `bs`, with fuel beyond the number of contents, `getAll` ends normally and
  -- adds the contents of the buckets to the vector, in the order of the buckets.
  pub get_all-flatten :
      (h : Store C) (m : PmemHashMap F) (bs : List (List C)) (fuel : ℕ) (content_vec : List C)
      → IsMap hash_code h m bs
      → length (flatten bs) < fuel
      → get_all fuel h m content_vec ≡ ok (content_vec ++ flatten bs)
  unfolding get_all
  get_all-flatten h m bs fuel content_vec v enough =
      rw (take-all m.tab m.tab_len v.width)
        (walk_all-Chains h fuel m.tab bs content_vec v.chains enough)

  -- A series of `put`s, each with the address that its allocation returns.
  unfoldable pub put_all : List (Ptr × C) → Store C → PmemHashMap F → Run (Store C × PmemHashMap F)
  put_all [] h m = ok (h, m)
  put_all ((a, c) ∷ acs) h m = put hash_code (some a) h m c >>= λ r. put_all acs r.0 r.1

-- The addresses are not null, free, and different from one another.
abbrev pub AreFresh : {C : Type 0} → Store C → List (Ptr × C) → Type 0
AreFresh h [] = Unit
AreFresh h (x ∷ xs) = (x.0 ≢ null) × (h x.0 ≡ none) × All (λ y. y.0 ≢ x.0) xs × AreFresh h xs

AreFresh-others :
    {C : Type 0} (h g : Store C) (a : Ptr) (xs : List (Ptr × C))
    → ((p : Ptr) → p ≢ a → g p ≡ h p)
    → All (λ y. y.0 ≢ a) xs
    → AreFresh h xs
    → AreFresh g xs
AreFresh-others h g a [] same ne f = tt
AreFresh-others h g a (x ∷ xs) same ne f =
    (f.0, same x.0 ne.0 ∙ f.1, f.2, AreFresh-others h g a xs same ne.1 f.3)

module _ {C F : Type 0} (hash_code : C → ℕ) where
  put_all-Perm :
      (acs : List (Ptr × C)) (h : Store C) (m : PmemHashMap F) (bs : List (List C))
      → IsMap hash_code h m bs
      → AreFresh h acs
      → Returns (put_all hash_code acs h m) λ r.
        (bs' : List (List C)) × IsMap hash_code r.0 r.1 bs'
        × Perm (flatten bs') (map (λ x. x.1) acs ++ flatten bs)
        × (length (flatten bs') ≡ length acs + length (flatten bs))
        × (r.1.size ≡ m.size)
  unfolding put_all
  put_all-Perm [] h m bs v f = (_, refl, (bs, v, Perm.refl _, omega arith, refl))
  put_all-Perm ((a, c) ∷ acs) h m bs v f =
      let (r, run, ins) = put-Inserted hash_code h m c bs a v f.0 f.1 in
      let i = hash_code c % m.tab_len in
      let wide : i < length bs =
        omega (arith, Chains-length h m.tab bs v.chains, v.width, mod-lt (hash_code c) v.roomy) in
      let (s, runs, (bs', v', perm, len, size)) =
        put_all-Perm acs r.0 r.1 _ ins.is_map (AreFresh-others h r.0 a acs ins.others f.2 f.3) in
      (
        s,
        rw run runs,
        (
          bs',
          v',
          Perm.trans perm (
              Perm.trans (Perm.append (Perm.refl _) (flatten-cons_at i c bs wide))
                (perm_middle _ _)),
          omega (arith, length-flatten-cons_at i c bs wide),
          size ∙ ins.same_size,
        ),
      )

  -- A series of puts at addresses that are not null, free and different from one another, on a map
  -- of given buckets, returns, and getAll, with fuel beyond the number of contents, then ends
  -- normally with a permutation of what was put and what was there; the size that the map records
  -- has not changed.
  pub put_all-get_all :
      (acs : List (Ptr × C)) (h : Store C) (m : PmemHashMap F) (bs : List (List C)) (fuel : ℕ)
      → IsMap hash_code h m bs
      → AreFresh h acs
      → length acs + length (flatten bs) < fuel
      → Returns (put_all hash_code acs h m) λ r.
        Returns
          (get_all fuel r.0 r.1 [])
          (λ contents. Perm contents (map (λ x. x.1) acs ++ flatten bs))
        × (r.1.size ≡ m.size)
  put_all-get_all acs h m bs fuel v f enough =
      let (r, run, (bs', v', perm, len, size)) = put_all-Perm acs h m bs v f in
      (
        r,
        run,
        ((flatten bs', get_all-flatten hash_code r.0 r.1 bs' fuel [] v' (omega arith), perm), size),
      )
