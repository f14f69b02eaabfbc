-- ===== src/HashMap/Nodes/Again.antt =====
-- `putAndGet` makes one node for a prefix.
use rocksdb_pmdk.Base.{ℕ, ◌<◌, ◌≡◌, ◌≢◌, true, some, List, Bytes, length}
use mathlib.Core.List.{flatten}
use rocksdb_pmdk.HashMap.{PmemHashMap}
use rocksdb_pmdk.HashMap.Chains.{Chains}
use rocksdb_pmdk.HashMap.Heap.{Ptr, null, Node, Store}
use rocksdb_pmdk.HashMap.Nodes.Lookup.{is_match}
use rocksdb_pmdk.NvRangeTab.{NvRangeTab}

module _ {F : Type 0} (h : Store NvRangeTab) (m : PmemHashMap F) (bs : List (List NvRangeTab))
    (width : length m.tab ≡ m.tab_len) (roomy : 0 < m.tab_len) (chains : Chains h m.tab bs)
    (city_hash : Bytes → ℕ → ℕ → ℕ) (prefix : Bytes) (fuel : ℕ)
    (enough : length (flatten bs) < fuel) where
  -- A node of the table that the search finds under the prefix.
  abbrev pub IsNodeOf : Ptr × Store NvRangeTab × PmemHashMap F → Type 0
  IsNodeOf r =
      (r.0 ≢ null)
      × ((n : Node NvRangeTab) × (r.1 r.0 ≡ some n)
          × (is_match (city_hash prefix (length prefix) 16) prefix n.p_content ≡ true))
