-- ===== src/Cache/Contents/Extended.antt =====
-- The cache with one more node and one more range.
use rocksdb_pmdk.Base.{
  ℕ, suc, ◌<◌, ◌≤◌, ◌≡◌, ◌≢◌, refl, ◌∙◌, sym, subst, Bool-cases, inl, inr, Option, none, some, List,
  [], ◌∷◌, Bytes, length, get_elem?, get_elem?-set_self, get_elem?-set_ne, set, length-set, ◌==◌,
  ==_iff, arith,
}
use rocksdb_pmdk.Cache.{WriteCache}
use rocksdb_pmdk.Cache.Contents.{IsNumberless, Model, put, HasText, IsText, Owned, Slot, Keeps}
use rocksdb_pmdk.Cache.Contents.Steps.{put-some, some_inj}
use rocksdb_pmdk.Cache.Ranges.{Range, assign, find-assign_other, assign-AreDistinct, eq_bytes-eq}
use rocksdb_pmdk.Comparator.{Comparator}
use rocksdb_pmdk.HashMap.Heap.{
  Ptr, null, Node, update, update_self, update_other, update-Extends, Seg, cons, Seg-Extends,
  OnChain, beyond, OnChain-Extends,
}
use rocksdb_pmdk.HashMap.Nodes.{eq_bytes}
use rocksdb_pmdk.HashMap.Nodes.Lookup.{eq_bytes_refl}
use rocksdb_pmdk.Memory.{Fixed64}
use rocksdb_pmdk.NvRangeTab.{NvRangeTab}
use rocksdb_pmdk.RangeTab.Get.Rounds.{Chunk}
use rocksdb_pmdk.RangeTab.State.{Options, FixedRangeTab}

module _ ⦃fixed : Fixed64⦄ (sizeof_p_buf : ℕ) (options : Options) (icmp : Comparator) {F : Type 0}
    (n : ℕ) (m : Model) (c : WriteCache F) (v : Keeps sizeof_p_buf options icmp n m c)
    (prefix : Bytes) (text : IsText prefix) where
  module _ (a : Ptr) (ne : a ≢ null) (free : c.heap a ≡ none) (slot : ℕ) (head : Ptr)
      (xs : List NvRangeTab) (chain : Seg c.heap head xs) (few : length xs ≤ n)
      (inside : slot < length c.range_map.tab) (headed : get_elem? c.range_map.tab slot ≡ some head)
      (t : FixedRangeTab) where
    abbrev pub node : Node NvRangeTab
    node = record { next = head; p_content = t.nv }

    abbrev pub range : Range
    range = record { node = a; tab = t }

    -- The cache with a new range over a new node, in front of the chain of its slot.
    abbrev pub with_range : WriteCache F
    with_range = record c {
      heap = update c.heap a node;
      range_map = record c.range_map { tab = set c.range_map.tab slot a };
      prefix2range = assign prefix range c.prefix2range;
    }

    kept : (q : Ptr) (x : Node NvRangeTab) → c.heap q ≡ some x → with_range.heap q ≡ some x
    kept = update-Extends c.heap a node free

    -- A chain of the old cache, behind the new head if that is in its slot.
    still_linked :
        {b : Ptr} (i : ℕ) (first : Ptr)
        → get_elem? c.range_map.tab i ≡ some first
        → OnChain c.heap b first
        → (j : ℕ) × ((p : Ptr) × (get_elem? with_range.range_map.tab j ≡ some p)
            × OnChain with_range.heap b p)
    still_linked {b} i first at on = elim (Bool-cases (i == slot)) [
      | inl here ↦
          let same : i ≡ slot = (==_iff i slot).0 here in
          let start : first ≡ head = some_inj (sym at ∙ rw (same, headed) refl) in
          let rest : OnChain with_range.heap b head =
            subst (λ p. OnChain with_range.heap b p) start (OnChain-Extends kept on) in
          (
            slot,
            (
              a,
              get_elem?-set_self c.range_map.tab slot a inside,
              beyond {n = node} ne (update_self c.heap a node) rest,
            ),
          )
      | inr other ↦
          let far : slot ≢ i = λ same. absurd (ground arith) in
          (i, (first, get_elem?-set_ne c.range_map.tab slot i a far ∙ at, OnChain-Extends kept on))
    ]

    other-Slot :
        (p : Bytes) (x : Option (List Chunk))
        → p ≢ prefix
        → Slot sizeof_p_buf options icmp c p x
        → Slot sizeof_p_buf options icmp with_range p x
    other-Slot p none far s = find-assign_other prefix p range c.prefix2range far ∙ s
    other-Slot p (some ds) far s = record {
      range = s.range;
      node = s.node;
      listed = find-assign_other prefix p range c.prefix2range far ∙ s.listed;
      at = kept s.range.node s.node s.at;
      holds = s.holds;
      used = s.used;
      sized = s.sized;
      no_range = s.no_range;
      text = s.text;
      linked = let (i, (first, at, chain)) = s.linked in still_linked i first at chain;
    }

    chains :
        (i : ℕ) (p : Ptr)
        → get_elem? with_range.range_map.tab i ≡ some p
        → (ys : List NvRangeTab) × Seg with_range.heap p ys × (length ys ≤ suc n)
    chains i p e = elim (Bool-cases (i == slot)) [
      | inl here ↦
          let at : i ≡ slot = (==_iff i slot).0 here in
          let first = get_elem?-set_self c.range_map.tab slot a inside in
          let e' : get_elem? (set c.range_map.tab slot a) slot ≡ some p = rw at at e in
          let same : a ≡ p = cc in
          let own : Seg with_range.heap a (t.nv ∷ xs) =
            cons ne (update_self c.heap a node) (Seg-Extends kept chain) in
          (
            t.nv ∷ xs,
            subst (λ (q : Ptr). Seg with_range.heap q (t.nv ∷ xs)) same own,
            omega (arith, few),
          )
      | inr other ↦
          let far : slot ≢ i = λ at. absurd (ground arith) in
          let old = sym (get_elem?-set_ne c.range_map.tab slot i a far) ∙ e in
          let (ys, s, le) = v.chains i p old in (ys, Seg-Extends kept s, omega (arith, le))
    ]

    module _ (own_slot : Owned sizeof_p_buf options icmp with_range prefix [])
        (own_text : HasText t.nv prefix) (own_fine : IsNumberless t.nv) where
      slots : (p : Bytes) → Slot sizeof_p_buf options icmp with_range p (put prefix [] m p)
      slots p = elim (Bool-cases (eq_bytes p prefix)) [
        | inl same ↦ let own : p ≡ prefix = eq_bytes-eq p prefix same in rw same (rw own own_slot)
        | inr other ↦
            let far : p ≢ prefix = λ e. absurd (ground (arith, eq_bytes_refl prefix)) in
            rw other (other-Slot p (m p) far (v.slots p))
      ]

      named :
          (q : Ptr) (x : Node NvRangeTab)
          → with_range.heap q ≡ some x
          → (p : Bytes) × IsText p
            × HasText x.p_content p
            × ((ds : List Chunk) × (put prefix [] m p ≡ some ds))
      named q x e = elim (Bool-cases (q == a)) [
        | inl here ↦
            let at : q ≡ a = (==_iff q a).0 here in
            let now : node ≡ x = some_inj (sym (update_self c.heap a node) ∙ rw at at e) in
            (prefix, text, rw (← now) own_text, ([], rw (eq_bytes_refl prefix) refl))
        | inr other ↦
            let far : q ≢ a = λ at. absurd (ground arith) in
            let old : c.heap q ≡ some x = sym (update_other c.heap a node q far) ∙ e in
            let (p, text', own, (ds, has)) = v.named q x old in
            (p, text', own, put-some prefix [] m p ds has)
      ]

      numberless :
          (q : Ptr) (x : Node NvRangeTab) → with_range.heap q ≡ some x → IsNumberless x.p_content
      numberless q x e = elim (Bool-cases (q == a)) [
        | inl here ↦
            let at : q ≡ a = (==_iff q a).0 here in
            let now : node ≡ x = some_inj (sym (update_self c.heap a node) ∙ rw at at e) in
            rw (← now) own_fine
        | inr other ↦
            let far : q ≢ a = λ at. absurd (ground arith) in
            v.numberless q x (sym (update_other c.heap a node q far) ∙ e)
      ]

      pub with_range-Keeps : Keeps sizeof_p_buf options icmp (suc n) (put prefix [] m) with_range
      with_range-Keeps = record {
        slots = slots;
        named = named;
        numberless = numberless;
        width = length-set c.range_map.tab slot a ∙ v.width;
        roomy = v.roomy;
        distinct = assign-AreDistinct prefix range c.prefix2range v.distinct;
        chains = chains;
      }
