-- ===== src/Cache/Contents/Fresh.antt =====
-- A range for a prefix that has none.
use rocksdb_pmdk.Base.{
  ℕ, suc, ◌+◌, ◌%◌, ◌<◌, ◌≤◌, ◌^◌, ◌≡◌, ◌≢◌, refl, ◌∙◌, ap, Bool, inl, inr, none, some, List, [],
  ◌∷◌, ◌++◌, Bytes, length, get_elem?, get_elem?-lt, get_elem?-set_self, set, length-append, ok,
  Returns, arith,
}
use native.Mathlib.Nat.{mod-lt}
use rocksdb_pmdk.Cache.{WriteCache, new_range, write_range}
use rocksdb_pmdk.Cache.Contents.{IsNumberless, Model, put, HasText, IsText, Owned, Keeps}
use rocksdb_pmdk.Cache.Contents.Steps.{HasText-inj, IsAmple}
use rocksdb_pmdk.Cache.Contents.Appends.{Frees}
use rocksdb_pmdk.Cache.Ranges.{find, assign, find-assign}
use rocksdb_pmdk.Comparator.{Comparator}
use rocksdb_pmdk.HashMap.Heap.{
  Ptr, null, Node, update, update_self, update_other, update_twice, Seg, deref, arrived,
}
use rocksdb_pmdk.HashMap.Nodes.{find_loop, put_and_get}
use rocksdb_pmdk.HashMap.Nodes.Lookup.{find_loop-Finds, node_of, new_node-is_match, put_and_get-new}
use rocksdb_pmdk.Memory.{
  Buffer, Fixed64, load, load-Holds, Holds-left, write, read-Holds, Holds-write_self,
}
use rocksdb_pmdk.NvRangeTab.{NvRangeTab, Pool}
use rocksdb_pmdk.RangeTab.{new_range_tab}
use rocksdb_pmdk.RangeTab.State.{Options, FixedRangeTab}
use rocksdb_pmdk.Cache.Contents.Blank.{new_range_tab-IsBlank, is_match-eq}
use rocksdb_pmdk.Cache.Contents.Extended.{node, range, with_range, with_range-Keeps}

module _ ⦃fixed : Fixed64⦄ (sizeof_p_buf : ℕ) (options : Options) (icmp : Comparator) {F : Type 0}
    (n : ℕ) (m : Model) (c : WriteCache F) (v : Keeps sizeof_p_buf options icmp n m c)
    (prefix : Bytes) (text : IsText prefix) (missing : m prefix ≡ none) where
  -- No node of the cache is found under the prefix.
  find_loop-missing :
      (fuel hash : ℕ) (head : Ptr) (i : ℕ)
      → n < fuel
      → get_elem? c.range_map.tab i ≡ some head
      → (xs : List NvRangeTab) × Seg c.heap head xs
        × (length xs ≤ n)
        × (find_loop fuel c.heap head hash prefix ≡ ok null)
  find_loop-missing fuel hash head i enough at =
      let (xs, s, le) = v.chains i head at in
      let (q, run, found) = find_loop-Finds c.heap hash prefix fuel s (omega arith) in
      elim found [
        | inl (end, _) ↦ (xs, s, le, rw end at run)
        | inr (live, (node, there, hit)) ↦
            let (p, text', own, (cs, has)) = v.named q node there in
            let same = is_match-eq hash p prefix node.p_content text' text own hit in
            let has' : m prefix ≡ some cs = rw same at has in absurd (cc)
      ]

  module _ (fuel : ℕ) (city_hash : Bytes → ℕ → ℕ → ℕ) (pool : Pool) (ample : IsAmple pool)
      (in_compaction : Bool) (enough : n < fuel) (a : Ptr) (ne : a ≢ null)
      (free : c.heap a ≡ none) where
    abbrev hash : ℕ
    hash = city_hash prefix (length prefix) 16

    new_range-eq :
        (head : Ptr) (nv : NvRangeTab) (t : FixedRangeTab)
        → put_and_get fuel c.heap c.range_map city_hash pool 0 (some a) prefix (2 ^ 26)
          ≡ ok (
            a,
            update c.heap a (record { next = head; p_content = nv }),
            record c.range_map { tab = set c.range_map.tab (hash % c.range_map.tab_len) a },
          )
        → new_range_tab options nv in_compaction ≡ ok t
        → new_range options fuel city_hash pool 0 in_compaction (some a) c prefix
          ≡ ok (
            record { node = a; tab = t },
            record c {
              heap = update c.heap a (record { next = head; p_content = t.nv });
              range_map = record c.range_map {
                tab = set c.range_map.tab (hash % c.range_map.tab_len) a;
              };
              prefix2range = assign prefix (record { node = a; tab = t }) c.prefix2range;
            },
          )
    unfolding new_range write_range deref
    new_range-eq head nv t stored made =
        let n₀ : Node NvRangeTab = record { next = head; p_content = nv } in
        let n₁ : Node NvRangeTab = record { next = head; p_content = t.nv } in
        rw (stored, update_self c.heap a n₀, made, update_twice c.heap a n₀ n₁) refl

    blank_text :
        (b₁ b₂ : Buffer)
        → pool.allocate (length prefix + 1) ≡ some b₁
        → HasText (node_of 0 hash prefix (2 ^ 26) b₁ b₂) prefix
    blank_text b₁ b₂ e =
        let full = prefix ++ 0 ∷ [] in
        let size = pool.allocate-size _ b₁ e in
        let len = length-append prefix (0 ∷ []) in
        let whole : b₁.size ≡ length full = omega arith in
        rw whole (read-Holds (write b₁.cells 0 full) 0 full (Holds-write_self b₁.cells 0 full))

    blank_loads :
        (b₁ b₂ : Buffer) (p : Bytes)
        → pool.allocate (length prefix + 1) ≡ some b₁
        → HasText (node_of 0 hash prefix (2 ^ 26) b₁ b₂) p
        → load (node_of 0 hash prefix (2 ^ 26) b₁ b₂).prefix 0 (length prefix) ≡ ok p
    blank_loads b₁ b₂ p e own =
        let nv = node_of 0 hash prefix (2 ^ 26) b₁ b₂ in
        let same : prefix ≡ p = HasText-inj nv prefix p (blank_text b₁ b₂ e) own in
        let size = pool.allocate-size _ b₁ e in
        let full = Holds-write_self b₁.cells 0 (prefix ++ 0 ∷ []) in
        load-Holds nv.prefix 0 prefix (omega arith)
          (Holds-left (write b₁.cells 0 (prefix ++ 0 ∷ [])) 0 prefix (0 ∷ []) full)
        ∙ ap (λ x. ok x) same

    -- Where the prefix has no range, the pool does not run out and the address is free, `NewRange`
    -- returns a range with no chunks for it, and keeps the others.
    pub new_range-Keeps :
        Returns (new_range options fuel city_hash pool 0 in_compaction (some a) c prefix) λ r.
          Keeps sizeof_p_buf options icmp (suc n) (put prefix [] m) r.1
          × (find prefix r.1.prefix2range ≡ some r.0)
          × Frees c r.1 a
    new_range-Keeps =
        let slot = hash % c.range_map.tab_len in
        let inside : slot < length c.range_map.tab = omega (arith, v.width, mod-lt hash v.roomy) in
        let (head, at) = get_elem?-lt c.range_map.tab slot inside in
        let (xs, chain, few, run) = find_loop-missing fuel hash head slot enough at in
        let (b₁, e₁) = ample (length prefix + 1) in
        let (b₂, e₂) = ample (2 ^ 26) in
        let (made, _) = new_node-is_match pool 0 hash prefix (2 ^ 26) b₁ b₂ e₁ e₂ in
        let nv = node_of 0 hash prefix (2 ^ 26) b₁ b₂ in
        let put_run =
          put_and_get-new fuel c.heap c.range_map city_hash pool 0 prefix (2 ^ 26) v.roomy head null
            at run a nv refl made in
        let size = pool.allocate-size (2 ^ 26) b₂ e₂ in
        let (t, tab_run, blank) =
          new_range_tab-IsBlank options in_compaction nv refl (omega arith) in
        let own_text : HasText t.nv prefix = rw blank.table (blank_text b₁ b₂ e₁) in
        let own : Owned sizeof_p_buf options icmp
            (with_range sizeof_p_buf options icmp n m c v prefix text a ne free slot head xs chain
              few inside at t)
            prefix [] =
          record {
            range =
                range sizeof_p_buf options icmp n m c v prefix text a ne free slot head xs chain few
                  inside at t;
            node =
                node sizeof_p_buf options icmp n m c v prefix text a ne free slot head xs chain few
                  inside at t;
            listed =
                find-assign prefix
                  (range sizeof_p_buf options icmp n m c v prefix text a ne free slot head xs chain
                    few inside at t)
                  c.prefix2range;
            at = update_self c.heap a (
                node sizeof_p_buf options icmp n m c v prefix text a ne free slot head xs chain few
                  inside at t);
            holds = λ target. record {
              stored = record {
                filters = tt;
                holds = tt;
                ends = rw blank.table refl;
                fits = rw blank.table (omega arith);
                small = rw blank.table (omega arith);
              };
              listed = blank.blocks;
              chunks = λ i k e. absurd (cc);
            };
            used = rw blank.table refl;
            sized = rw blank.table size;
            no_range = rw blank.table refl;
            text = own_text;
            linked = (slot, (a, get_elem?-set_self c.range_map.tab slot a inside, arrived ne));
          } in
        let fine : IsNumberless t.nv = record {
          number = rw blank.table refl;
          loads = λ p own_p. rw blank.table (blank_loads b₁ b₂ p e₁ (rw blank.table at own_p));
          roomy = rw blank.table (omega arith);
        } in
        (
          _,
          new_range-eq head nv t put_run tab_run,
          (
            with_range-Keeps sizeof_p_buf options icmp n m c v prefix text a ne free slot head xs
                chain few inside at t own own_text fine,
            find-assign prefix (record { node = a; tab = t }) c.prefix2range,
            λ p far gone.
                update_other c.heap a (record { next = head; p_content = t.nv }) p far ∙ gone,
          ),
        )
