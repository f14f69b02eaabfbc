-- ===== src/HashMap.antt =====
-- pmem_hash_map.h: the persistent hash map with chained buckets, a template over the content `C` of
-- its nodes, with `hash_code` as its `hashCode`. Its chains stand in a heap of nodes. `F` is the
-- type `float` and `scale` the product of a table length and a load factor, cut to `uint32_t`.
pub mod Heap
pub mod Chains
pub mod Contents
pub mod Nodes
use rocksdb_pmdk.Base.{
  ℕ, zero, suc, ◌+◌, ◌%◌, ◌^◌, not, Option, none, some, List, [], ◌∷◌, ◌++◌, Bool, true, false,
  length, get_elem?, set, take, replicate, ◌==◌, if◌then◌else◌, Run, ok, fault, out_of_bounds,
  alloc_error, division_by_zero, out_of_fuel, of_option, guard, ◌>>=◌, ◌>>◌,
}
use Heap.{Ptr, null, Node, Store, update, deref}

pub record PmemHashMap (F : Type 0) : Type 0 where
  pub tab_len : ℕ
  pub tab : List Ptr
  pub load_factor : F
  pub threshold : ℕ
  pub size : ℕ

-- `init`, and the constructor, whose text is the same: `room` says whether the array can be
-- allocated. The length is kept as `uint32_t`; the array has the length that was asked for.
unfoldable pub init : {F : Type 0} → (ℕ → F → ℕ) → Bool → F → ℕ → Run (PmemHashMap F)
init scale room load_factor tab_len =
    if room
    then ok (record {
      tab_len = tab_len % 2 ^ 32;
      tab = replicate tab_len null;
      load_factor = load_factor;
      threshold = scale (tab_len % 2 ^ 32) load_factor;
      size = 0;
    })
    else fault alloc_error

module _ {C : Type 0} where
  -- The inner loop of `getAll`: the contents of one chain, behind those that are in the vector.
  unfoldable pub walk : ℕ → Store C → Ptr → List C → Run (List C)
  walk zero h node content_vec = fault out_of_fuel
  walk (suc fuel) h node content_vec =
      let rest : Run (List C) =
        deref h node >>= λ n. walk fuel h n.next (content_vec ++ n.p_content ∷ []) in
      if node == null then ok content_vec else rest

  -- The outer loop, over the buckets that are left.
  unfoldable pub walk_all : ℕ → Store C → List Ptr → List C → Run (List C)
  walk_all fuel h [] content_vec = ok content_vec
  walk_all fuel h (node ∷ nodes) content_vec =
      walk fuel h node content_vec >>= walk_all fuel h nodes

  module _ {F : Type 0} where
    -- The buckets below the recorded length, which `init` never makes larger than the array. `fuel`
    -- bounds the length of a chain.
    unfoldable pub get_all : ℕ → Store C → PmemHashMap F → List C → Run (List C)
    get_all fuel h m content_vec = walk_all fuel h (take m.tab_len m.tab) content_vec

    -- `fresh` is the address that `make_persistent<Node2>` returns, if it does. All writes are in one
    -- transaction, so a failed allocation leaves the map and the heap as they were.
    unfoldable pub put :
        (C → ℕ) → (fresh : Option Ptr) → Store C → PmemHashMap F → C → Run (Store C × PmemHashMap F)
    put hash_code fresh h m p_content = do
      guard (not (m.tab_len == 0)) division_by_zero
      let idx = hash_code p_content % m.tab_len % m.tab_len
      head ← of_option out_of_bounds (get_elem? m.tab idx)
      new_head ← of_option alloc_error fresh
      ok (
        update h new_head (record { next = head; p_content = p_content }),
        record m { tab = set m.tab idx new_head },
      )
