-- ===== src/HashMap/Nodes/Drops.antt =====
-- The `put` of pmem_hash_map.cc keeps a content only in an empty bucket.
use rocksdb_pmdk.Base.{
  ℕ, ◌%◌, ◌<◌, ◌≡◌, refl, ◌∙◌, sym, ap, ◌≢◌, ◌⊎◌, inl, inr, true, false, Bool-cases, some, none,
  List, length, get_elem?, get_elem?-lt, set, ◌==◌, ==_iff, ok, ok_inj, arith, Returns,
}
use native.Mathlib.Nat.{mod-lt}
use rocksdb_pmdk.HashMap.{PmemHashMap}
use rocksdb_pmdk.HashMap.Chains.{IsMap, Inserted, put-Inserted, put-ok}
use rocksdb_pmdk.HashMap.Heap.{Ptr, null, Store, update}
use rocksdb_pmdk.HashMap.Nodes.{put_content}

module _ {C F : Type 0} (hash_code : C → ℕ) (h : Store C) (m : PmemHashMap F) (c : C)
    (bs : List (List C)) (a : Ptr) (v : IsMap hash_code h m bs) (ne : a ≢ null)
    (free : h a ≡ none) where
  abbrev slot : ℕ
  slot = hash_code c % m.tab_len

  put_content-empty :
      get_elem? m.tab slot ≡ some null
      → put_content hash_code (some a) h m c
        ≡ ok (
          true,
          update h a (record { next = null; p_content = c }),
          record m { tab = set m.tab slot a },
        )
  unfolding put_content
  put_content-empty e =
      let roomy = v.roomy in
      let nonzero : (m.tab_len == 0) ≡ false = ground arith in rw (nonzero, e) refl

  put_content-full :
      (p : Ptr)
      → get_elem? m.tab slot ≡ some p
      → p ≢ null
      → put_content hash_code (some a) h m c ≡ ok (true, h, m)
  unfolding put_content
  put_content-full p e live =
      let roomy = v.roomy in
      let nonzero : (m.tab_len == 0) ≡ false = ground arith in
      let full : (p == null) ≡ false = ground arith in rw (nonzero, e, full) refl

  -- On a map of the buckets `bs`, at a free address that is not null, this `put` returns true. If the
  -- bucket of the hash is empty, the content is then the first of it and nothing else has changed;
  -- otherwise the map and the heap are as they were, and the content is lost.
  pub put_content-cases : Returns (put_content hash_code (some a) h m c) λ r.
      (r.0 ≡ true)
      × (((get_elem? m.tab (hash_code c % m.tab_len) ≡ some null)
            × Inserted hash_code h m c bs a (r.1, r.2))
          ⊎ ((p : Ptr) × (get_elem? m.tab (hash_code c % m.tab_len) ≡ some p)
              × (p ≢ null)
              × (r.1 ≡ h)
              × (r.2 ≡ m)))
  put_content-cases =
      let inside : slot < length m.tab = omega (arith, v.width, mod-lt (hash_code c) v.roomy) in
      let (p, e) = get_elem?-lt m.tab slot inside in
      elim (Bool-cases (p == null)) [
        | inr live ↦
            let other : p ≢ null = ground arith in
            ((true, h, m), put_content-full p e other, (refl, inr (p, e, other, refl, refl)))
        | inl empty ↦
            let e' : get_elem? m.tab slot ≡ some null = rw ((==_iff p null).0 empty) at e in
            let (r, run, ins) = put-Inserted hash_code h m c bs a v ne free in
            let same = ok_inj _ r (sym (put-ok hash_code h m c a null v.roomy e') ∙ run) in
            (
              (true, r.0, r.1),
              put_content-empty e' ∙ ap (λ (x : Store C × PmemHashMap F). ok (true, x.0, x.1)) same,
              (refl, inl (e', ins)),
            )
      ]
