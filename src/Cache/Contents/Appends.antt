-- ===== src/Cache/Contents/Appends.antt =====
-- An append to a prefix that has a range.
use rocksdb_pmdk.Base.{
  ℕ, ◌+◌, ◌≤◌, ◌^◌, ◌≡◌, ◌≢◌, refl, ◌∙◌, sym, subst, Bool, Bool-cases, inl, inr, Option, none, some,
  List, [], ◌∷◌, ◌++◌, Bytes, length, get_elem?, ◌==◌, ==_iff, ok_inj, Returns, arith,
}
use rocksdb_pmdk.Cache.{WriteCache, append_to_range}
use rocksdb_pmdk.Cache.Contents.{IsNumberless, Model, put, HasText, IsText, Owned, Slot, Keeps}
use rocksdb_pmdk.Cache.Ranges.{
  assign, find-assign, find-assign_other, assign-AreDistinct, eq_bytes-eq,
}
use rocksdb_pmdk.Cache.Routing.{append_to_range-ok}
use rocksdb_pmdk.Chunk.Format.{chunk_bytes}
use rocksdb_pmdk.Comparator.{Comparator}
use rocksdb_pmdk.HashMap.Heap.{
  Ptr, Node, update, update_self, update_other, Seg, Seg-replace, OnChain, OnChain-replace,
}
use rocksdb_pmdk.HashMap.Nodes.{eq_bytes}
use rocksdb_pmdk.HashMap.Nodes.Lookup.{eq_bytes_refl}
use rocksdb_pmdk.Memory.{Fixed64}
use rocksdb_pmdk.NvRangeTab.{NvRangeTab, Pool}
use rocksdb_pmdk.RangeTab.{append_block}
use rocksdb_pmdk.RangeTab.Append.{append-ok}
use rocksdb_pmdk.RangeTab.Cycle.{append_block-IsGrown}
use rocksdb_pmdk.RangeTab.Get.{IsRange}
use rocksdb_pmdk.RangeTab.Get.Rounds.{Chunk, IsChunk}
use rocksdb_pmdk.RangeTab.Refine.{room}
use rocksdb_pmdk.RangeTab.State.{Options, FixedRangeTab}
use rocksdb_pmdk.Cache.Contents.Steps.{
  IsNumberless-same, IsAmple, HasText-inj, room-last, check-Returns, append_block-prefix, put-some,
  some_inj,
}

-- No address that is free is taken, but for that of the new node.
abbrev pub Frees : {F : Type 0} → WriteCache F → WriteCache F → Ptr → Type 0
Frees c c' a = (p : Ptr) → p ≢ a → c.heap p ≡ none → c'.heap p ≡ none

module _ ⦃fixed : Fixed64⦄ (sizeof_p_buf : ℕ) (options : Options) (icmp : Comparator) (pool : Pool)
    (bits : options.chunk_bloom_bits ≡ 8) (ample : IsAmple pool) where
  module _ {F : Type 0} (c : WriteCache F) (prefix : Bytes) (cs : List Chunk) (k : Chunk)
      (o : Owned sizeof_p_buf options icmp c prefix cs) (chunk : IsChunk sizeof_p_buf icmp k)
      (filter : length k.bloom ≡ 8) (fits : room (cs ++ k ∷ []) ≤ 2 ^ 26) where
    abbrev before : FixedRangeTab
    before = record o.range.tab { nv = o.node.p_content }

    -- What an append leaves of the table.
    record IsNext (r : FixedRangeTab) : Type 0 where
      holds : (target : Bytes) → IsRange sizeof_p_buf options icmp r target 0 (cs ++ k ∷ [])
      used : r.nv.data_len ≡ room (cs ++ k ∷ [])
      sized : r.nv.buf.size ≡ 2 ^ 26
      no_range : r.nv.key_range ≡ none
      same : r.nv.prefix ≡ o.node.p_content.prefix
      number : r.nv.seq_num ≡ o.node.p_content.seq_num
      len : r.nv.prefix_len ≡ o.node.p_content.prefix_len

    block-IsNext : Returns (append_block options before k.bloom (chunk_bytes k.pairs k.gap)) IsNext
    block-IsNext =
        let len = room-last cs k in
        let enough : before.nv.data_len + 16 + length (chunk_bytes k.pairs k.gap)
            ≤ before.nv.buf.size =
          omega (arith, len, o.used, o.sized) in
        let grown = λ (target : Bytes).
          append_block-IsGrown options before bits sizeof_p_buf icmp target 0 cs k (o.holds target)
            chunk filter enough in
        let (r, run, g) = grown [] in
        let (same_text, same_keys, same_number, same_len) =
          append_block-prefix options before r k.bloom (chunk_bytes k.pairs k.gap) run in
        (
          r,
          run,
          record {
            holds = λ target.
                let (r', run', g') = grown target in
                let same = ok_inj r' r (sym run' ∙ run) in
                subst (λ x. IsRange sizeof_p_buf options icmp x target 0 (cs ++ k ∷ [])) same
                  g'.range;
            used = omega (arith, g.used, o.used, len);
            sized = g.same_size ∙ o.sized;
            no_range = same_keys ∙ o.no_range;
            same = same_text;
            number = same_number;
            len = same_len;
          },
        )

    abbrev node_after : FixedRangeTab → Node NvRangeTab
    node_after r = record o.node { p_content = r.nv }

    abbrev after : FixedRangeTab → WriteCache F
    after r = record c {
      heap = update c.heap o.range.node (node_after r);
      prefix2range = assign prefix (record o.range { tab = r }) c.prefix2range;
    }

    module _ (n : ℕ) (m : Model) (v : Keeps sizeof_p_buf options icmp n m c)
        (has : m prefix ≡ some cs) (r : FixedRangeTab) (g : IsNext r) where
      abbrev m' : Model
      m' = put prefix (cs ++ k ∷ []) m

      still_linked :
          (a : Ptr)
          → ((i : ℕ) × ((head : Ptr) × (get_elem? c.range_map.tab i ≡ some head)
                × OnChain c.heap a head))
          → (i : ℕ) × ((head : Ptr) × (get_elem? c.range_map.tab i ≡ some head)
              × OnChain (after r).heap a head)
      still_linked a (i, (head, at, chain)) =
          (i, (head, at, OnChain-replace o.range.node o.node r.nv o.at chain))

      own_slot : Owned sizeof_p_buf options icmp (after r) prefix (cs ++ k ∷ [])
      own_slot = record {
        range = record o.range { tab = r };
        node = node_after r;
        listed = find-assign prefix (record o.range { tab = r }) c.prefix2range;
        at = update_self c.heap o.range.node (node_after r);
        holds = g.holds;
        used = g.used;
        sized = g.sized;
        no_range = g.no_range;
        text = rw g.same o.text;
        linked = still_linked o.range.node o.linked;
      }

      other-Slot :
          (p : Bytes) (x : Option (List Chunk))
          → p ≢ prefix
          → Slot sizeof_p_buf options icmp c p x
          → Slot sizeof_p_buf options icmp (after r) p x
      other-Slot p none ne s =
          find-assign_other prefix p (record o.range { tab = r }) c.prefix2range ne ∙ s
      other-Slot p (some ds) ne s =
          let apart : s.range.node ≢ o.range.node = λ e.
            let two : s.node ≡ o.node = cc in
            ne (HasText-inj s.node.p_content p prefix s.text (rw two o.text)) in
          record {
            range = s.range;
            node = s.node;
            listed =
                find-assign_other prefix p (record o.range { tab = r }) c.prefix2range ne
                ∙ s.listed;
            at = update_other c.heap o.range.node (node_after r) s.range.node apart ∙ s.at;
            holds = s.holds;
            used = s.used;
            sized = s.sized;
            no_range = s.no_range;
            text = s.text;
            linked = still_linked s.range.node s.linked;
          }

      slots : (p : Bytes) → Slot sizeof_p_buf options icmp (after r) p (m' p)
      slots p = elim (Bool-cases (eq_bytes p prefix)) [
        | inl same ↦ let own : p ≡ prefix = eq_bytes-eq p prefix same in rw same (rw own own_slot)
        | inr other ↦
            let ne : p ≢ prefix = λ e. absurd (ground (arith, eq_bytes_refl prefix)) in
            rw other (other-Slot p (m p) ne (v.slots p))
      ]

      named :
          (a : Ptr) (node : Node NvRangeTab)
          → (after r).heap a ≡ some node
          → (p : Bytes) × IsText p
            × HasText node.p_content p
            × ((ds : List Chunk) × (m' p ≡ some ds))
      named a node e = elim (Bool-cases (a == o.range.node)) [
        | inl here ↦
            let at : a ≡ o.range.node = (==_iff a o.range.node).0 here in
            let now : node_after r ≡ node =
              some_inj (sym (update_self c.heap o.range.node (node_after r)) ∙ rw at at e) in
            let (p, text, own, _) = v.named o.range.node o.node o.at in
            let same = HasText-inj o.node.p_content p prefix own o.text in
            (
              prefix,
              rw same at text,
              rw (← now, g.same) o.text,
              (cs ++ k ∷ [], rw (eq_bytes_refl prefix) refl),
            )
        | inr other ↦
            let apart : a ≢ o.range.node = λ at. absurd (ground arith) in
            let old : c.heap a ≡ some node =
              sym (update_other c.heap o.range.node (node_after r) a apart) ∙ e in
            let (p, text, own, (ds, there)) = v.named a node old in
            (p, text, own, put-some prefix (cs ++ k ∷ []) m p ds there)
      ]

      numberless :
          (a : Ptr) (node : Node NvRangeTab)
          → (after r).heap a ≡ some node
          → IsNumberless node.p_content
      numberless a node e = elim (Bool-cases (a == o.range.node)) [
        | inl here ↦
            let at : a ≡ o.range.node = (==_iff a o.range.node).0 here in
            let now : node_after r ≡ node =
              some_inj (sym (update_self c.heap o.range.node (node_after r)) ∙ rw at at e) in
            let old = v.numberless o.range.node o.node o.at in
            rw (← now) (
              IsNumberless-same o.node.p_content r.nv g.number g.same g.len (g.sized ∙ sym o.sized)
                old)
        | inr other ↦
            let apart : a ≢ o.range.node = λ at. absurd (ground arith) in
            v.numberless a node (sym (update_other c.heap o.range.node (node_after r) a apart) ∙ e)
      ]

      chains :
          (i : ℕ) (p : Ptr)
          → get_elem? c.range_map.tab i ≡ some p
          → (xs : List NvRangeTab) × Seg (after r).heap p xs × (length xs ≤ n)
      chains i p e =
          let (xs, s, le) = v.chains i p e in
          let (ys, t, len) = Seg-replace o.range.node o.node r.nv o.at s in
          (ys, t, omega (arith, len))

      after-Keeps : Keeps sizeof_p_buf options icmp n m' (after r)
      after-Keeps = record {
        slots = slots;
        named = named;
        numberless = numberless;
        width = v.width;
        roomy = v.roomy;
        distinct = assign-AreDistinct prefix (record o.range { tab = r }) c.prefix2range v.distinct;
        chains = chains;
      }

      after-Frees : (a : Ptr) → Frees c (after r) a
      after-Frees a p ne free =
          let apart : p ≢ o.range.node = λ e. let taken = o.at in cc in
          update_other c.heap o.range.node (node_after r) p apart ∙ free

  module _ {F : Type 0} (fuel : ℕ) (city_hash : Bytes → ℕ → ℕ → ℕ) (seq_init : ℕ)
      (in_compaction : Bool) (fresh : Option Ptr) (n : ℕ) (m : Model) (c : WriteCache F)
      (prefix start end : Bytes) (cs : List Chunk) (k : Chunk) where
    pub append-Keeps :
        Keeps sizeof_p_buf options icmp n m c
        → m prefix ≡ some cs
        → IsChunk sizeof_p_buf icmp k
        → length k.bloom ≡ 8
        → room (cs ++ k ∷ []) ≤ 2 ^ 26
        → Returns
            (append_to_range options fuel city_hash pool seq_init in_compaction icmp fresh c prefix
              k.bloom
              (chunk_bytes k.pairs k.gap)
              start
              end)
            λ c'.
              Keeps sizeof_p_buf options icmp n (put prefix (cs ++ k ∷ []) m) c'
              × ((a : Ptr) → Frees c c' a)
    append-Keeps v has chunk filter fits =
        let o : Owned sizeof_p_buf options icmp c prefix cs =
          subst (λ (x : Option (List Chunk)). Slot sizeof_p_buf options icmp c prefix x) has
            (v.slots prefix) in
        let (r, run, g) = block-IsNext c prefix cs k o chunk filter fits in
        let can = check-Returns icmp pool o.node.p_content start end ample o.no_range in
        let body = chunk_bytes k.pairs k.gap in
        let whole =
          append-ok icmp pool options (before c prefix cs k o chunk filter fits) r k.bloom body
            start end run can in
        (
          after c prefix cs k o chunk filter fits r,
          append_to_range-ok options icmp pool fuel city_hash seq_init in_compaction fresh c prefix
              o.range o.node o.listed o.at k.bloom body start end r whole,
          (
            after-Keeps c prefix cs k o chunk filter fits n m v has r g,
            after-Frees c prefix cs k o chunk filter fits n m v has r g,
          ),
        )
