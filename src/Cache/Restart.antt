-- ===== src/Cache/Restart.antt =====
-- What the constructor recovers behind a restart.
use mathlib.Core.List.{flatten}
use rocksdb_pmdk.Base.{
  ℕ, zero, suc, ◌<◌, ◌≡◌, ◌≢◌, refl, ◌∙◌, subst, ◌⊎◌, inl, inr, true, false, Bool, some, List, [],
  ◌∷◌, ◌++◌, Bytes, length, length-append, get_elem?, ◌==◌, All, ok, arith,
}
use mathlib.Core.Path.{fun_ext}
use rocksdb_pmdk.Cache.{WriteCache, write_range, rebuild_chain, rebuild_chains}
use rocksdb_pmdk.Cache.Ranges.{Range, RangeList, find, assign, find-assign, find-assign_other}
use rocksdb_pmdk.HashMap.Heap.{Ptr, null, Node, Store, update, deref}
use rocksdb_pmdk.Memory.{Fixed64, load}
use rocksdb_pmdk.NvRangeTab.{NvRangeTab}
use rocksdb_pmdk.RangeTab.{new_range_tab}
use rocksdb_pmdk.RangeTab.Blocks.{Block, blocks_at, IsStored}
use rocksdb_pmdk.RangeTab.Rebuild.{rebuild_blk_list-blocks_at}
use rocksdb_pmdk.RangeTab.State.{Options, unset}

-- A node of the hash map: the prefix and the blocks that its table holds.
pub record Entry : Type 0 where
  pub prefix : Bytes
  pub node : Ptr
  pub nv : NvRangeTab
  pub blocks : List Block

module _ ⦃fixed : Fixed64⦄ (options : Options) (in_compaction : Bool) where
  -- The table has been numbered, holds the blocks behind its two words, and has the prefix.
  pub record IsEntry (e : Entry) : Type 0 where
    pub numbered : e.nv.seq_num ≢ 0
    pub stored : IsStored options.chunk_bloom_bits e.nv 16 e.blocks
    pub text : load e.nv.prefix 0 e.nv.prefix_len ≡ ok e.prefix

  -- The range that is rebuilt from the table.
  abbrev pub range_of : Entry → Range
  range_of e = record {
    node = e.node;
    tab = record {
      nv = e.nv;
      blklist = blocks_at options.chunk_bloom_bits 16 e.blocks;
      raw = unset;
      in_compaction = in_compaction;
      pendding_clean = 0;
    };
  }

  new_range_tab-IsEntry :
      (e : Entry) → IsEntry e → new_range_tab options e.nv in_compaction ≡ ok (range_of e).tab
  unfolding new_range_tab
  new_range_tab-IsEntry e v =
      let old : (e.nv.seq_num == 0) ≡ false = ground (arith, v.numbered) in
      rw old (
        rebuild_blk_list-blocks_at options
          (record {
            nv = e.nv;
            blklist = [];
            raw = unset;
            in_compaction = in_compaction;
            pendding_clean = 0;
          })
          e.blocks v.stored)

  -- From `p` the `next` pointers lead through the nodes of the entries.
  abbrev pub Linked : Store NvRangeTab → Ptr → List Entry → Type 0
  Linked h p [] = p ≡ null
  Linked h p (e ∷ es) =
      (p ≢ null)
      × (e.node ≡ p)
      × IsEntry e
      × ((q : Ptr) × (h p ≡ some (record { next = q; p_content = e.nv })) × Linked h q es)

  -- The same for each head of the table.
  abbrev pub AreLinked : Store NvRangeTab → List Ptr → List (List Entry) → Type 0
  AreLinked h [] [] = Unit
  AreLinked h (p ∷ ps) (es ∷ ess) = Linked h p es × AreLinked h ps ess
  AreLinked h ps ess = ⊥

  abbrev pub assign_all : List Entry → RangeList → RangeList
  assign_all [] rs = rs
  assign_all (e ∷ es) rs = assign_all es (assign e.prefix (range_of e) rs)

  assign_all-append :
      (es fs : List Entry) (rs : RangeList)
      → assign_all (es ++ fs) rs ≡ assign_all fs (assign_all es rs)
  assign_all-append [] fs rs = refl
  assign_all-append (e ∷ es) fs rs = assign_all-append es fs (assign e.prefix (range_of e) rs)

  update_same :
      (h : Store NvRangeTab) (p : Ptr) (n : Node NvRangeTab) → h p ≡ some n → update h p n ≡ h
  unfolding update
  update_same h p n e = fun_ext (λ q. ground arith)

  -- The node of an entry is in the heap.
  abbrev pub IsAt : Store NvRangeTab → Entry → Type 0
  IsAt h e = (q : Ptr) × (h e.node ≡ some (record { next = q; p_content = e.nv }))

  Linked-IsAt :
      (h : Store NvRangeTab) (p : Ptr) (es fs : List Entry) (i : ℕ) (e : Entry)
      → Linked h p es
      → get_elem? (es ++ fs) i ≡ some e
      → IsAt h e ⊎ ((j : ℕ) × (get_elem? fs j ≡ some e))
  Linked-IsAt h p [] fs i e l at = inr (i, at)
  Linked-IsAt h p (f ∷ es) fs zero e (live, here, v, (q, found, l)) at =
      let same : f ≡ e = cc in inl (subst (λ (x : Entry). IsAt h x) same (q, rw (← here) at found))
  Linked-IsAt h p (f ∷ es) fs (suc i) e (live, here, v, (q, found, l)) at =
      Linked-IsAt h q es fs i e l at

  pub AreLinked-IsAt :
      (h : Store NvRangeTab) (ps : List Ptr) (ess : List (List Entry)) (i : ℕ) (e : Entry)
      → AreLinked h ps ess
      → get_elem? (flatten ess) i ≡ some e
      → IsAt h e
  unfolding flatten
  AreLinked-IsAt h [] [] i e l at = absurd (cc)
  AreLinked-IsAt h (p ∷ ps) (es ∷ ess) i e l at =
      elim (Linked-IsAt h p es (flatten ess) i e l.0 at) [
        | inl here ↦ here
        | inr (j, later) ↦ AreLinked-IsAt h ps ess j e l.1 later
      ]
  AreLinked-IsAt h ps ess i e l at = ground arith

  module _ {F : Type 0} where
    unfoldable pub recovered : WriteCache F → List Entry → WriteCache F
    recovered c es = record c { prefix2range = assign_all es c.prefix2range }

    rebuild_round :
        (fuel : ℕ) (e : Entry) (q : Ptr) (c : WriteCache F)
        → e.node ≢ null
        → IsEntry e
        → c.heap e.node ≡ some (record { next = q; p_content = e.nv })
        → rebuild_chain options in_compaction (suc fuel) e.node c
          ≡ rebuild_chain options in_compaction fuel q (recovered c (e ∷ []))
    unfolding rebuild_chain write_range deref recovered
    rebuild_round fuel e q c live v found =
        let more : (e.node == null) ≡ false = ground arith in
        let same = update_same c.heap e.node (record { next = q; p_content = e.nv }) found in
        rw (more, found, new_range_tab-IsEntry e v, v.text, same) refl

    rebuild_chain-Linked :
        (fuel : ℕ) (p : Ptr) (es : List Entry) (c : WriteCache F)
        → Linked c.heap p es
        → length es < fuel
        → rebuild_chain options in_compaction fuel p c ≡ ok (recovered c es)
    unfolding recovered
    rebuild_chain-Linked zero p es c l enough = absurd (omega arith)
    rebuild_chain-Linked (suc fuel) p [] c l enough =
        let end : (p == null) ≡ true = ground arith in unfold rebuild_chain in rw end refl
    rebuild_chain-Linked (suc fuel) p (e ∷ es) c (live, at, v, (q, found, l)) enough =
        let live' : e.node ≢ null = rw at live in
        let found' : c.heap e.node ≡ some (record { next = q; p_content = e.nv }) = rw at found in
        rw (← at) (
          rebuild_round fuel e q c live' v found'
          ∙ rebuild_chain-Linked fuel q es (recovered c (e ∷ [])) l (omega arith))

    pub rebuild_chains-AreLinked :
        (fuel : ℕ) (ps : List Ptr) (ess : List (List Entry)) (c : WriteCache F)
        → AreLinked c.heap ps ess
        → length (flatten ess) < fuel
        → rebuild_chains options in_compaction fuel ps c ≡ ok (recovered c (flatten ess))
    unfolding rebuild_chains recovered flatten
    rebuild_chains-AreLinked fuel [] [] c l enough = refl
    rebuild_chains-AreLinked fuel (p ∷ ps) (es ∷ ess) c l enough =
        let len = length-append es (flatten ess) in
        rw
          (
            rebuild_chain-Linked fuel p es c l.0 (omega arith),
            assign_all-append es (flatten ess) c.prefix2range,
          )
          (rebuild_chains-AreLinked fuel ps ess (recovered c es) l.1 (omega arith))
    rebuild_chains-AreLinked fuel ps ess c l enough = ground arith

-- No two entries have one prefix.
abbrev pub AreDistinct : List Entry → Type 0
AreDistinct [] = Unit
AreDistinct (e ∷ es) = All (λ f. e.prefix ≢ f.prefix) es × AreDistinct es

module _ ⦃fixed : Fixed64⦄ (options : Options) (in_compaction : Bool) where
  find-assign_all_other :
      (prefix : Bytes) (es : List Entry) (rs : RangeList)
      → All (λ f. prefix ≢ f.prefix) es
      → find prefix (assign_all options in_compaction es rs) ≡ find prefix rs
  find-assign_all_other prefix [] rs other = refl
  find-assign_all_other prefix (e ∷ es) rs other =
      find-assign_all_other prefix es (assign e.prefix (range_of options in_compaction e) rs)
        other.1
      ∙ find-assign_other e.prefix prefix (range_of options in_compaction e) rs other.0

  pub find-assign_all :
      (es : List Entry) (rs : RangeList) (i : ℕ) (e : Entry)
      → AreDistinct es
      → get_elem? es i ≡ some e
      → find e.prefix (assign_all options in_compaction es rs)
        ≡ some (range_of options in_compaction e)
  find-assign_all [] rs i e d at = absurd (cc)
  find-assign_all (f ∷ es) rs zero e d at =
      let same : f ≡ e = cc in
      rw (← same) (
        find-assign_all_other f.prefix es (assign f.prefix (range_of options in_compaction f) rs)
          d.0
        ∙ find-assign f.prefix (range_of options in_compaction f) rs)
  find-assign_all (f ∷ es) rs (suc i) e d at =
      find-assign_all es (assign f.prefix (range_of options in_compaction f) rs) i e d.1 at
