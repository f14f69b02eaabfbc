-- ===== src/Cache/Contents/Reopened.antt =====
-- A restart over tables with the number 0: every range comes back without its chunks.
use rocksdb_pmdk.Base.{
  ℕ, zero, suc, ◌<◌, ◌≡◌, ◌⊎◌, refl, ◌∙◌, sym, subst, Bool, inl, inr, some, List, [], ◌∷◌, Bytes,
  length, get_elem?, Returns, arith,
}
use rocksdb_pmdk.Cache.{WriteCache, rebuild_chain, rebuild_chains}
use rocksdb_pmdk.Cache.Contents.{HasText}
use rocksdb_pmdk.Cache.Contents.Blank.{new_range_tab-IsBlank}
use rocksdb_pmdk.Cache.Contents.Steps.{HasText-inj, some_inj}
use rocksdb_pmdk.HashMap.Heap.{Ptr, null, Node, Store, Seg, nil, cons, OnChain, arrived, beyond}
use rocksdb_pmdk.Memory.{Fixed64}
use rocksdb_pmdk.NvRangeTab.{NvRangeTab}
use rocksdb_pmdk.RangeTab.State.{Options}
use rocksdb_pmdk.Cache.Contents.Walk.{
  Stays-Seg, Stays-OnChain, IsFine, Blank, Walked, Walked-refl, Walked-trans, after, round-eq,
  own-Blank, after-Walked,
}

null-empty : {h : Store NvRangeTab} {a : Ptr} → OnChain h a null → ⊥
null-empty (arrived ne) = ne refl
null-empty (beyond ne e s) = ne refl

-- A node on the chain is the first one or stands behind it.
chain-cases :
    {h : Store NvRangeTab} {a p : Ptr} (n : Node NvRangeTab)
    → h p ≡ some n
    → OnChain h a p
    → (a ≡ p) ⊎ OnChain h a n.next
chain-cases n at (arrived ne) = inl refl
chain-cases {h} {a} n at (beyond {n = x} ne e s) =
    let two : x ≡ n = some_inj (sym e ∙ at) in inr (subst (λ y. OnChain h a y.next) two s)

module _ {F : Type 0} ⦃fixed : Fixed64⦄ (options : Options) (in_compaction : Bool) where
  -- Every node from `p` on gets a range without blocks, under its text.
  abbrev pub Blanked : WriteCache F → WriteCache F → Ptr → Type 0
  Blanked c c' p =
      (a : Ptr) (n : Node NvRangeTab)
      → OnChain c.heap a p
      → c.heap a ≡ some n
      → (q : Bytes) → HasText n.p_content q
      → Blank c' q

  rebuild_chain-Walked :
      (fuel : ℕ) (p : Ptr) (xs : List NvRangeTab) (c : WriteCache F)
      → IsFine c
      → Seg c.heap p xs
      → length xs < fuel
      → Returns (rebuild_chain options in_compaction fuel p c) λ c'. Walked c c' × Blanked c c' p
  rebuild_chain-Walked zero p xs c fine s enough = absurd (omega arith)
  rebuild_chain-Walked (suc fuel) null [] c fine nil enough = (
    c,
    unfold rebuild_chain in refl,
    (Walked-refl c fine, λ a n on at q own. absurd (null-empty on)),
  )
  rebuild_chain-Walked (suc fuel) p (x ∷ xs) c fine (cons {q = next} live at s) enough =
      let n : Node NvRangeTab = record { next = next; p_content = x } in
      let (q, own) = fine.texts p n at in
      let v = fine.numberless p n at in
      let (t, made, blank) = new_range_tab-IsBlank options in_compaction x v.number v.roomy in
      let d = after options in_compaction c fine p n live at q own t made blank in
      let w = after-Walked options in_compaction c fine p n live at q own t made blank in
      let (ys, s', len) = Stays-Seg w.stays s in
      let (c', run, (w', rest)) =
        rebuild_chain-Walked fuel next ys d w.fine s' (omega (arith, len)) in
      (
        c',
        round-eq options in_compaction c fine p n live at q own t made blank fuel ∙ run,
        (
          Walked-trans c d c' w w',
          λ a y on e r has. elim (chain-cases n at on) [
            | inl here ↦
                let two : y ≡ n = some_inj (sym e ∙ rw here at) in
                let same = HasText-inj x q r own (rw two at has) in
                w'.blanks r (
                  rw (← same)
                    (own-Blank options in_compaction c fine p n live at q own t made blank))
            | inr later ↦
                let (y', there, _, kept) = w.stays a y e in
                rest a y' (Stays-OnChain w.stays later) there r (rw kept has)
          ],
        ),
      )

  -- The chains of the first head and of the others.
  all_Blanked :
      (p : Ptr) (ps : List Ptr) (c d c' : WriteCache F)
      → Walked c d
      → Walked d c'
      → Blanked c d p
      → ((i : ℕ) (q : Ptr) → get_elem? ps i ≡ some q → Blanked d c' q)
      → (i : ℕ) (q : Ptr) → get_elem? (p ∷ ps) i ≡ some q
      → Blanked c c' q
  all_Blanked p ps c d c' w w' first rest zero q e a n on at r own =
      let two : p ≡ q = cc in
      w'.blanks r (first a n (subst (λ x. OnChain c.heap a x) (sym two) on) at r own)
  all_Blanked p ps c d c' w w' first rest (suc i) q e a n on at r own =
      let (n', there, _, kept) = w.stays a n at in
      rest i q e a n' (Stays-OnChain w.stays on) there r (rw kept own)

  pub rebuild_chains-Walked :
      (fuel : ℕ) (ps : List Ptr) (c : WriteCache F)
      → IsFine c
      → ((i : ℕ) (p : Ptr)
          → get_elem? ps i ≡ some p
          → (xs : List NvRangeTab) × Seg c.heap p xs × (length xs < fuel))
      → Returns
          (rebuild_chains options in_compaction fuel ps c)
          λ c'. Walked c c' × ((i : ℕ) (p : Ptr) → get_elem? ps i ≡ some p → Blanked c c' p)
  unfolding rebuild_chains
  rebuild_chains-Walked fuel [] c fine chains =
      (c, refl, (Walked-refl c fine, λ i p e. absurd (cc)))
  rebuild_chains-Walked fuel (p ∷ ps) c fine chains =
      let (xs, s, enough) = chains 0 p refl in
      let (d, run, (w, first)) = rebuild_chain-Walked fuel p xs c fine s enough in
      let (c', runs, (w', rest)) = rebuild_chains-Walked fuel ps d w.fine (λ i q e.
        let (ys, t, few) = chains (suc i) q e in
        let (zs, t', len) = Stays-Seg w.stays t in (zs, t', omega (arith, len, few))) in
      (c', rw run runs, (Walked-trans c d c' w w', all_Blanked p ps c d c' w w' first rest))
