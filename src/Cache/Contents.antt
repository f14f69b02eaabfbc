-- ===== src/Cache/Contents.antt =====
-- The cache as a map from prefixes to lists of chunks, oldest first.
pub mod Steps
pub mod Appends
pub mod Blank
pub mod Extended
pub mod Fresh
pub mod Series
pub mod NewPool
pub mod Walk
pub mod Reopened
pub mod Losses
pub mod Listing
pub mod Idle
use rocksdb_pmdk.Base.{
  ℕ, ◌+◌, ◌<◌, ◌≤◌, ◌^◌, ◌≡◌, refl, ◌∙◌, sym, true, false, Bool, Option, none, some, Option-cases,
  inl, inr, subst, All, List, [], ◌∷◌, ◌++◌, Bytes, length, get_elem?, if◌then◌else◌, Run, ok,
  arith,
}
use rocksdb_pmdk.Cache.{WriteCache, get, read_range}
use rocksdb_pmdk.Cache.Ranges.{Range, find, AreDistinct, eq_bytes-eq}
use rocksdb_pmdk.Comparator.{Comparator}
use rocksdb_pmdk.HashMap.Heap.{Ptr, Node, deref, Seg, OnChain}
use rocksdb_pmdk.HashMap.Nodes.{eq_bytes, c_text}
use rocksdb_pmdk.HashMap.Nodes.Lookup.{eq_bytes_refl}
use rocksdb_pmdk.Memory.{Fixed64, read, load}
use rocksdb_pmdk.NvRangeTab.{NvRangeTab}
use rocksdb_pmdk.RangeTab
use rocksdb_pmdk.RangeTab.Get.{IsRange}
use rocksdb_pmdk.RangeTab.Get.Rounds.{Chunk}
use rocksdb_pmdk.RangeTab.Refine.{IsOpen, newest, outcome, get-newest_lem, room}
use rocksdb_pmdk.RangeTab.Search.{Status, not_found}
use rocksdb_pmdk.RangeTab.State.{Options, FixedRangeTab}

-- What each prefix has: no range, or a range with these chunks.
abbrev pub Model : Type 0
Model = Bytes → Option (List Chunk)

abbrev pub put : Bytes → List Chunk → Model → Model
put prefix cs m = λ p. if eq_bytes p prefix then some cs else m p

-- The array of a node has the prefix with its terminating zero.
abbrev pub HasText : NvRangeTab → Bytes → Type 0
HasText nv p = read nv.prefix.cells 0 nv.prefix.size ≡ p ++ 0 ∷ []

-- What a restart reads of the table: it has the number 0, and its prefix is read as the text.
pub record IsNumberless (nv : NvRangeTab) : Type 0 where
  pub number : nv.seq_num ≡ 0
  pub loads : (p : Bytes) → HasText nv p → load nv.prefix 0 nv.prefix_len ≡ ok p
  pub roomy : 16 ≤ nv.buf.size

-- The text has no zero byte, which would end it for `strcmp`.
abbrev pub IsText : Bytes → Type 0
IsText p = c_text p ≡ p

module _ ⦃fixed : Fixed64⦄ (sizeof_p_buf : ℕ) (options : Options) (icmp : Comparator) where
  -- The range of the prefix has the chunks, from the start of a buffer of 64 MB, and no key range.
  pub record Owned {F : Type 0} (c : WriteCache F) (p : Bytes) (cs : List Chunk) : Type 0 where
    pub range : Range
    pub node : Node NvRangeTab
    pub listed : find p c.prefix2range ≡ some range
    pub at : c.heap range.node ≡ some node
    pub holds :
        (target : Bytes)
        → IsRange sizeof_p_buf options icmp (record range.tab { nv = node.p_content }) target 0 cs
    pub used : node.p_content.data_len ≡ room cs
    pub sized : node.p_content.buf.size ≡ 2 ^ 26
    pub no_range : node.p_content.key_range ≡ none
    pub text : HasText node.p_content p
    pub linked :
        (i : ℕ) × ((head : Ptr) × (get_elem? c.range_map.tab i ≡ some head)
          × OnChain c.heap range.node head)

  abbrev pub Slot : {F : Type 0} → WriteCache F → Bytes → Option (List Chunk) → Type 0
  Slot c p none = find p c.prefix2range ≡ none
  Slot c p (some cs) = Owned c p cs

  -- The cache has what the model says, at most `n` nodes in a chain of its hash map, and no node that
  -- is not the one of a prefix of the model. No prefix is listed twice.
  pub record Keeps {F : Type 0} (n : ℕ) (m : Model) (c : WriteCache F) : Type 0 where
    pub slots : (p : Bytes) → Slot c p (m p)
    pub named :
        (a : Ptr) (node : Node NvRangeTab)
        → c.heap a ≡ some node
        → (p : Bytes) × IsText p × HasText node.p_content p × ((cs : List Chunk) × (m p ≡ some cs))
    pub numberless :
        (a : Ptr) (node : Node NvRangeTab) → c.heap a ≡ some node → IsNumberless node.p_content
    pub width : length c.range_map.tab ≡ c.range_map.tab_len
    pub roomy : 0 < c.range_map.tab_len
    pub distinct : AreDistinct c.prefix2range
    pub chains :
        (i : ℕ) (p : Ptr)
        → get_elem? c.range_map.tab i ≡ some p
        → (xs : List NvRangeTab) × Seg c.heap p xs × (length xs ≤ n)

  -- What `Get` is to return: the answer of the newest chunk of the prefix that has one.
  abbrev pub answer : Model → Bytes → Bytes → Bytes → Run (Status × Bytes)
  answer m prefix key out = elim (m prefix) [
    | none ↦ ok (not_found, out)
    | some cs ↦ outcome sizeof_p_buf options icmp key (newest options icmp key cs)
  ]

  module _ {F : Type 0} (prefix_extractor : Bytes → Bytes) (n : ℕ) (m : Model) (c : WriteCache F)
      (v : Keeps n m c) (key out : Bytes) where
    -- Every chunk of the prefix of the key has its filter hold the key back, or starts at or before it.
    abbrev pub IsReadable : Type 0
    IsReadable =
        (cs : List Chunk) → m (prefix_extractor key) ≡ some cs → All (IsOpen options icmp key) cs

    pub get-answer :
        IsReadable
        → get options sizeof_p_buf prefix_extractor icmp c key out
          ≡ answer m (prefix_extractor key) key out
    unfolding get read_range deref
    get-answer readable =
        let prefix = prefix_extractor key in
        let slot = v.slots prefix in
        elim (Option-cases (m prefix)) [
          | inl missing ↦
              let gone : find prefix c.prefix2range ≡ none =
                subst (λ (o : Option (List Chunk)). Slot c prefix o) missing slot in
              rw (answer, missing, get, gone) refl
          | inr (cs, has) ↦
              let o : Owned c prefix cs =
                subst (λ (x : Option (List Chunk)). Slot c prefix x) has slot in
              rw (answer, has, get, o.listed, o.at)
                (get-newest_lem sizeof_p_buf options icmp key
                  (record o.range.tab { nv = o.node.p_content }) 0 cs out (o.holds key)
                  (readable cs has))
        ]
