-- ===== src/Cache/Contents/Walk.antt =====
-- What a restart makes of tables with the number 0: `RebuildFromPersistentNode` along the chains.
use rocksdb_pmdk.Base.{
  ℕ, suc, ◌≡◌, ◌≢◌, refl, ◌∙◌, sym, ap, subst, Bool, false, Bool-cases, inl, inr, none, some, List,
  [], ◌∷◌, Bytes, length, ◌==◌, ==_iff, ok, arith,
}
use rocksdb_pmdk.Cache.{WriteCache, rebuild_chain, write_range}
use rocksdb_pmdk.Cache.Contents.{HasText, IsNumberless}
use rocksdb_pmdk.Cache.Contents.Blank.{IsBlank}
use rocksdb_pmdk.Cache.Contents.Steps.{IsNumberless-same, some_inj}
use rocksdb_pmdk.Cache.Ranges.{Range, find, assign, find-assign, find-assign_other, eq_bytes-eq}
use rocksdb_pmdk.HashMap.Heap.{
  Ptr, null, Node, Store, update, update_self, update_other, deref, Seg, nil, cons, OnChain,
  arrived, beyond,
}
use rocksdb_pmdk.HashMap.Nodes.{eq_bytes}
use rocksdb_pmdk.HashMap.Nodes.Lookup.{eq_bytes_refl}
use rocksdb_pmdk.Memory.{Fixed64}
use rocksdb_pmdk.NvRangeTab.{NvRangeTab}
use rocksdb_pmdk.RangeTab.{new_range_tab}
use rocksdb_pmdk.RangeTab.State.{Options, FixedRangeTab}

-- Every node is still there, with its successor and its prefix.
abbrev pub Stays : Store NvRangeTab → Store NvRangeTab → Type 0
Stays h g =
    (a : Ptr) (n : Node NvRangeTab)
    → h a ≡ some n
    → (n' : Node NvRangeTab) × (g a ≡ some n')
      × (n'.next ≡ n.next)
      × (n'.p_content.prefix ≡ n.p_content.prefix)

pub Stays-Seg :
    {h g : Store NvRangeTab} {p : Ptr} {xs : List NvRangeTab}
    → Stays h g
    → Seg h p xs
    → (ys : List NvRangeTab) × Seg g p ys × (length ys ≡ length xs)
Stays-Seg keep nil = ([], nil, refl)
Stays-Seg {g} keep (cons {p} {q} ne e s) =
    let (ys, t, len) = Stays-Seg keep s in
    let (n', at, next, _) = keep p _ e in
    (n'.p_content ∷ ys, cons ne at (subst (λ r. Seg g r ys) (sym next) t), ap suc len)

pub Stays-OnChain : {h g : Store NvRangeTab} {a p : Ptr} → Stays h g → OnChain h a p → OnChain g a p
Stays-OnChain keep (arrived ne) = arrived ne
Stays-OnChain {g} {a} keep (beyond {p} {n} ne e s) =
    let (n', at, next, _) = keep p n e in
    beyond ne at (subst (λ r. OnChain g a r) (sym next) (Stays-OnChain keep s))

module _ {F : Type 0} where
  -- Every node has a text and the number 0.
  pub record IsFine (c : WriteCache F) : Type 0 where
    pub texts :
        (a : Ptr) (n : Node NvRangeTab) → c.heap a ≡ some n → (p : Bytes) × HasText n.p_content p
    pub numberless : (a : Ptr) (n : Node NvRangeTab) → c.heap a ≡ some n → IsNumberless n.p_content

  -- The prefix has a range without blocks.
  abbrev pub Blank : WriteCache F → Bytes → Type 0
  Blank c p =
      (range : Range) × (find p c.prefix2range ≡ some range)
      × (range.tab.blklist ≡ [])
      × ((n : Node NvRangeTab) × (c.heap range.node ≡ some n))

  -- What a part of the walk keeps.
  pub record Walked (c c' : WriteCache F) : Type 0 where
    pub fine : IsFine c'
    pub stays : Stays c.heap c'.heap
    pub back :
        (a : Ptr) (n : Node NvRangeTab)
        → c'.heap a ≡ some n
        → (m : Node NvRangeTab) × (c.heap a ≡ some m)
    pub blanks : (p : Bytes) → Blank c p → Blank c' p
    pub others :
        (p : Bytes)
        → find p c.prefix2range ≡ none
        → ((a : Ptr) (n : Node NvRangeTab) → c.heap a ≡ some n → HasText n.p_content p → ⊥)
        → find p c'.prefix2range ≡ none

  pub Walked-refl : (c : WriteCache F) → IsFine c → Walked c c
  Walked-refl c fine = record {
    fine = fine;
    stays = λ a n e. (n, e, refl, refl);
    back = λ a n e. (n, e);
    blanks = λ p b. b;
    others = λ p none_there absent. none_there;
  }

  pub Walked-trans : (c d e : WriteCache F) → Walked c d → Walked d e → Walked c e
  Walked-trans c d e v w = record {
    fine = w.fine;
    stays = λ a n at.
        let (n', there, next, same) = v.stays a n at in
        let (n'', there', next', same') = w.stays a n' there in
        (n'', there', next' ∙ next, same' ∙ same);
    back = λ a n at. let (m, mid) = w.back a n at in v.back a m mid;
    blanks = λ p b. w.blanks p (v.blanks p b);
    others = λ p gone absent. w.others p (v.others p gone absent) (λ a n at own.
        let (m, old) = v.back a n at in
        let (n', new, _, same) = v.stays a m old in
        let two : n' ≡ n = some_inj (sym new ∙ at) in absent a m old (rw (← same, two) own));
  }

module _ {F : Type 0} ⦃fixed : Fixed64⦄ (options : Options) (in_compaction : Bool) where
  module _ (c : WriteCache F) (fine : IsFine c) (p : Ptr) (n : Node NvRangeTab) (live : p ≢ null)
      (at : c.heap p ≡ some n) (q : Bytes) (own : HasText n.p_content q) (t : FixedRangeTab)
      (made : new_range_tab options n.p_content in_compaction ≡ ok t)
      (blank : IsBlank n.p_content t) where
    abbrev pub after : WriteCache F
    after = record c {
      heap = update c.heap p (record n { p_content = t.nv });
      prefix2range = assign q (record { node = p; tab = t }) c.prefix2range;
    }

    pub round-eq :
        (fuel : ℕ)
        → rebuild_chain options in_compaction (suc fuel) p c
          ≡ rebuild_chain options in_compaction fuel n.next after
    unfolding rebuild_chain write_range deref
    round-eq fuel =
        let more : (p == null) ≡ false = ground arith in
        let v = fine.numberless p n at in rw (more, at, made, v.loads q own) refl

    same_prefix : t.nv.prefix ≡ n.p_content.prefix
    same_prefix = rw blank.table refl

    after-Stays : Stays c.heap after.heap
    after-Stays a x e = elim (Bool-cases (a == p)) [
      | inl here ↦
          let two : a ≡ p = (==_iff a p).0 here in
          let was : x ≡ n = some_inj (sym e ∙ rw two at) in
          let m : Node NvRangeTab = record n { p_content = t.nv } in
          (m, rw two (update_self c.heap p m), rw was refl, rw was same_prefix)
      | inr other ↦
          let far : a ≢ p = λ two. absurd (ground arith) in
          (x, update_other c.heap p _ a far ∙ e, refl, refl)
    ]

    after-back :
        (a : Ptr) (x : Node NvRangeTab)
        → after.heap a ≡ some x
        → (m : Node NvRangeTab) × (c.heap a ≡ some m)
    after-back a x e = elim (Bool-cases (a == p)) [
      | inl here ↦ let two : a ≡ p = (==_iff a p).0 here in (n, rw two at)
      | inr other ↦
          let far : a ≢ p = λ two. absurd (ground arith) in
          (x, sym (update_other c.heap p _ a far) ∙ e)
    ]

    after-IsFine : IsFine after
    after-IsFine = record {
      texts = λ a x e.
          let (m, old) = after-back a x e in
          let (m', new, _, same) = after-Stays a m old in
          let two : m' ≡ x = some_inj (sym new ∙ e) in
          let (r, has) = fine.texts a m old in (r, rw (← two, same) has);
      numberless = λ a x e. elim (Bool-cases (a == p)) [
        | inl here ↦
            let two : a ≡ p = (==_iff a p).0 here in
            let m : Node NvRangeTab = record n { p_content = t.nv } in
            let now : m ≡ x = some_inj (sym (update_self c.heap p m) ∙ rw two at e) in
            rw (← now) (
              IsNumberless-same n.p_content t.nv (rw blank.table refl) same_prefix
                (rw blank.table refl) (rw blank.table refl) (fine.numberless p n at))
        | inr other ↦
            let far : a ≢ p = λ two. absurd (ground arith) in
            fine.numberless a x (sym (update_other c.heap p _ a far) ∙ e)
      ];
    }

    pub own-Blank : Blank after q
    own-Blank =
        let range : Range = record { node = p; tab = t } in
        (range, find-assign q range c.prefix2range, blank.blocks, (_, update_self c.heap p _))

    pub after-Walked : Walked c after
    after-Walked = record {
      fine = after-IsFine;
      stays = after-Stays;
      back = after-back;
      blanks = λ r b. elim (Bool-cases (eq_bytes r q)) [
        | inl same ↦ let two : r ≡ q = eq_bytes-eq r q same in rw two own-Blank
        | inr other ↦
            let far : r ≢ q = λ two. absurd (ground (arith, eq_bytes_refl q)) in
            let (range, listed, empty, (m, there)) = b in
            let (m', there', _, _) = after-Stays range.node m there in
            (range, find-assign_other q r _ c.prefix2range far ∙ listed, empty, (m', there'))
      ];
      others = λ r gone absent.
          let far : r ≢ q = λ two. absent p n at (rw two own) in
          find-assign_other q r _ c.prefix2range far ∙ gone;
    }
