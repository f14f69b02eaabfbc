-- ===== src/Cache/Routing.antt =====
-- An append through the cache, and reads behind it.
use rocksdb_pmdk.Base.{
  Run-cases, ok_inj, ok_ne_fault, ℕ, ◌+◌, ◌≤◌, ◌≡◌, refl, ◌≢◌, ◌∙◌, sym, Bool, inl, inr, Option,
  none, some, List, Bytes, length, Fault, ok, fault, Returns,
}
use rocksdb_pmdk.Cache.{WriteCache, read_range, write_range, get, append_to_range}
use rocksdb_pmdk.Cache.Ranges.{Range, find, assign, find-assign, find-assign_other}
use rocksdb_pmdk.Chunk.Format.{chunk_bytes}
use rocksdb_pmdk.Comparator.{Comparator}
use rocksdb_pmdk.HashMap.Heap.{Ptr, Node, Store, update, deref, update_self, update_other}
use rocksdb_pmdk.Memory.{Buffer, Fixed64}
use rocksdb_pmdk.NvRangeTab.{NvRangeTab, Pool}
use rocksdb_pmdk.RangeTab
use rocksdb_pmdk.RangeTab.{append_block, append, check_and_update_key_range}
use rocksdb_pmdk.RangeTab.Cycle.{get-append}
use rocksdb_pmdk.RangeTab.Get.{IsRange}
use rocksdb_pmdk.RangeTab.Get.Rounds.{Chunk, IsChunk, Hits}
use rocksdb_pmdk.RangeTab.Search.{ok_status}
use rocksdb_pmdk.RangeTab.State.{Options, FixedRangeTab}

-- The range as it is read when its node has the table `nv`.
abbrev pub with_table : Range → NvRangeTab → FixedRangeTab
with_table range nv = record range.tab { nv = nv }

read_range-ok :
    (heap : Store NvRangeTab) (range : Range) (n : Node NvRangeTab)
    → heap range.node ≡ some n
    → read_range heap range ≡ ok (with_table range n.p_content)
unfolding read_range deref
read_range-ok heap range n e = rw e refl

write_range-ok :
    (heap : Store NvRangeTab) (range : Range) (n : Node NvRangeTab) (t : FixedRangeTab)
    → heap range.node ≡ some n
    → write_range heap range t
      ≡ ok (update heap range.node (record n { p_content = t.nv }), record range { tab = t })
unfolding write_range deref
write_range-ok heap range n t e = rw e refl

module _ ⦃fixed : Fixed64⦄ (options : Options) (icmp : Comparator) (pool : Pool) where
  module _ {F : Type 0} (fuel : ℕ) (city_hash : Bytes → ℕ → ℕ → ℕ) (seq_init : ℕ)
      (in_compaction : Bool) (fresh : Option Ptr) (c : WriteCache F) (prefix : Bytes)
      (range : Range) (n : Node NvRangeTab) (listed : find prefix c.prefix2range ≡ some range)
      (stored : c.heap range.node ≡ some n) where
    -- The cache after the range has become `r`.
    abbrev pub changed : FixedRangeTab → WriteCache F
    changed r = record c {
      heap = update c.heap range.node (record n { p_content = r.nv });
      prefix2range = assign prefix (record range { tab = r }) c.prefix2range;
    }

    pub append_to_range-ok :
        (bloom body start end : Bytes) (r : FixedRangeTab)
        → append options icmp pool (with_table range n.p_content) bloom body start end ≡ ok r
        → append_to_range options fuel city_hash pool seq_init in_compaction icmp fresh c prefix
            bloom body start end
          ≡ ok (changed r)
    unfolding append_to_range
    append_to_range-ok bloom body start end r run =
        rw
          (listed, read_range-ok c.heap range n stored, run, write_range-ok c.heap range n r stored)
          refl

    append_to_range-fault :
        (bloom body start end : Bytes) (why : Fault)
        → append options icmp pool (with_table range n.p_content) bloom body start end ≡ fault why
        → append_to_range options fuel city_hash pool seq_init in_compaction icmp fresh c prefix
            bloom body start end
          ≡ fault why
    unfolding append_to_range
    append_to_range-fault bloom body start end why run =
        rw (listed, read_range-ok c.heap range n stored, run) refl

    module _ (sizeof_p_buf : ℕ) (prefix_extractor : Bytes → Bytes) where
      get-found :
          (d : WriteCache F) (key out : Bytes) (owner : Range) (t : FixedRangeTab)
          → find (prefix_extractor key) d.prefix2range ≡ some owner
          → read_range d.heap owner ≡ ok t
          → get options sizeof_p_buf prefix_extractor icmp d key out
            ≡ RangeTab.get sizeof_p_buf options icmp t key out
      unfolding get
      get-found d key out owner t e run = rw (get, e, run) refl

      get-changed :
          (key out : Bytes) (r : FixedRangeTab)
          → prefix_extractor key ≡ prefix
          → get options sizeof_p_buf prefix_extractor icmp (changed r) key out
            ≡ RangeTab.get sizeof_p_buf options icmp r key out
      get-changed key out r own =
          let range' : Range = record range { tab = r } in
          let n' : Node NvRangeTab = record n { p_content = r.nv } in
          get-found (changed r) key out range' r (rw own (find-assign prefix range' c.prefix2range))
            (read_range-ok (changed r).heap range' n' (update_self c.heap range.node n'))

      -- `Get` looks at nothing but the range of the prefix and its node.
      get-same :
          (d : WriteCache F) (key out : Bytes) (found : Option Range)
          → find (prefix_extractor key) d.prefix2range ≡ found
          → find (prefix_extractor key) c.prefix2range ≡ found
          → ((owner : Range) → found ≡ some owner → d.heap owner.node ≡ c.heap owner.node)
          → get options sizeof_p_buf prefix_extractor icmp d key out
            ≡ get options sizeof_p_buf prefix_extractor icmp c key out
      unfolding get read_range deref
      get-same d key out none e f same = rw (get, e, f) refl
      get-same d key out (some owner) e f same = rw (get, e, f, same owner refl) refl

      -- Read what was written, through the cache: for a prefix with a range of well-formed chunks,
      -- where the filters take eight bytes, the block has room and the key range can be updated,
      -- the append returns, and `Get` then finds a key of the new chunk with its value, if the key
      -- has that prefix, the new filter lets it through and the new chunk starts at or before it.
      pub get-append_to_range :
          (bits : options.chunk_bloom_bits ≡ 8) (base : ℕ) (cs : List Chunk) (k : Chunk)
          (key v out start end : Bytes) (o : Option Buffer)
          → prefix_extractor key ≡ prefix
          → IsRange sizeof_p_buf options icmp (with_table range n.p_content) key base cs
          → IsChunk sizeof_p_buf icmp k
          → length k.bloom ≡ 8
          → n.p_content.data_len + 16 + length (chunk_bytes k.pairs k.gap) ≤ n.p_content.buf.size
          → Hits options icmp key k v
          → check_and_update_key_range icmp pool n.p_content start end ≡ ok o
          → Returns
              (append_to_range options fuel city_hash pool seq_init in_compaction icmp fresh c
                prefix k.bloom
                (chunk_bytes k.pairs k.gap)
                start
                end)
              λ c'. get options sizeof_p_buf prefix_extractor icmp c' key out ≡ ok (ok_status, v)
      get-append_to_range bits base cs k key v out start end o own range_ok chunk f room hit check =
          let t = with_table range n.p_content in
          let body = chunk_bytes k.pairs k.gap in
          let (r, whole, found) =
            get-append options t bits sizeof_p_buf icmp key pool base cs k v out start end range_ok
              chunk f room hit (o, check) in
          (
            changed r,
            append_to_range-ok k.bloom body start end r whole,
            get-changed key out r own ∙ found,
          )

      -- An append that returns, to a prefix that has a range, does not change what Get returns for
      -- a key of another prefix, as long as the two ranges do not share a node.
      pub get-append_to_range_other :
          (bloom body start end key out : Bytes) (c' : WriteCache F)
          → prefix_extractor key ≢ prefix
          → ((other : Range)
              → find (prefix_extractor key) c.prefix2range ≡ some other
              → other.node ≢ range.node)
          → append_to_range options fuel city_hash pool seq_init in_compaction icmp fresh c prefix
              bloom body start end
            ≡ ok c'
          → get options sizeof_p_buf prefix_extractor icmp c' key out
            ≡ get options sizeof_p_buf prefix_extractor icmp c key out
      get-append_to_range_other bloom body start end key out c' foreign apart run =
          let t = with_table range n.p_content in
          elim (Run-cases (append options icmp pool t bloom body start end)) [
            | inr (why, failed) ↦ absurd (
                ok_ne_fault c' why
                  (sym run ∙ append_to_range-fault bloom body start end why failed))
            | inl (r, done) ↦
                let whole = append_to_range-ok bloom body start end r done in
                let range' : Range = record range { tab = r } in
                let n' : Node NvRangeTab = record n { p_content = r.nv } in
                let same : changed r ≡ c' = ok_inj _ _ (sym whole ∙ run) in
                rw (← same) (
                  get-same (changed r) key out (find (prefix_extractor key) c.prefix2range)
                    (find-assign_other prefix (prefix_extractor key) range' c.prefix2range foreign)
                    refl (λ owner e. update_other c.heap range.node n' owner.node (apart owner e)))
          ]
