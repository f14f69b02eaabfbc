-- ===== src/HashMap/Nodes.antt =====
-- pmem_hash_map.cc: the version of the map whose nodes are the tables of the ranges, found by their
-- prefix. A node is a `NvRangeTab` without an extra buffer. `strcmp` reads up to the first zero byte.
-- What the source leaves open is a parameter: `city_hash` is `CityHash64WithSeed`, `seq_init` stands
-- for the `?` that the source assigns to `seq_num_`.
pub mod Lookup
pub mod Again
pub mod Drops
use rocksdb_pmdk.Base.{
  ℕ, zero, suc, ◌+◌, ◌%◌, not, Bool, true, false, ◌&&◌, Option, none, some, take, List, [], ◌∷◌,
  ◌++◌, Bytes, length, get_elem?, set, ◌==◌, if◌then◌else◌, Run, ok, fault, out_of_bounds,
  alloc_error, division_by_zero, out_of_fuel, of_option, guard, ◌>>=◌, ◌>>◌,
}
use rocksdb_pmdk.HashMap.{PmemHashMap, walk_all}
use rocksdb_pmdk.HashMap.Heap.{Ptr, null, Store, update, deref}
use rocksdb_pmdk.Memory.{Buffer, load, store}
use rocksdb_pmdk.NvRangeTab.{NvRangeTab, Pool}

-- The text of a C string.
abbrev pub c_text : Bytes → Bytes
c_text [] = []
c_text (x ∷ xs) = let rest = c_text xs in if x == 0 then [] else x ∷ rest

abbrev pub eq_bytes : Bytes → Bytes → Bool
eq_bytes [] [] = true
eq_bytes (x ∷ xs) (y ∷ ys) = x == y && eq_bytes xs ys
eq_bytes xs ys = false

-- `strcmp(a, b) == 0`
abbrev pub strcmp_eq : Bytes → Bytes → Bool
strcmp_eq a b = eq_bytes (c_text a) (c_text b)

-- The loop of `getNode` and of `putAndGet`: the first node of the chain with the hash and the prefix.
unfoldable pub find_loop : ℕ → Store NvRangeTab → Ptr → ℕ → Bytes → Run Ptr
find_loop zero h tmp hash key = fault out_of_fuel
find_loop (suc fuel) h tmp hash key =
    let round : Run Ptr = deref h tmp >>= λ n.
    load n.p_content.prefix 0 n.p_content.prefix.size >>= λ prefix.
    let rest = find_loop fuel h n.next hash key in
    if n.p_content.hash_ == hash && strcmp_eq prefix key then ok tmp else rest in
    if tmp == null then ok null else round

-- The new node of `putAndGet`. The prefix is stored with its terminating zero.
unfoldable pub new_node : Pool → (seq_init : ℕ) → ℕ → Bytes → ℕ → Run NvRangeTab
new_node pool seq_init hash prefix buf_size = do
  prefix_room ← of_option alloc_error (pool.allocate (length prefix + 1))
  prefix_buf ← store prefix_room 0 (prefix ++ 0 ∷ [])
  buf ← of_option alloc_error (pool.allocate buf_size)
  ok (record {
    hash_ = hash;
    prefix_len = length prefix;
    prefix = prefix_buf;
    key_range = none;
    chunk_num = 0;
    seq_num = seq_init;
    buf_size = buf_size;
    buf = buf;
    data_len = 0;
    extra_buf = 0;
  })

module _ {F : Type 0} (fuel : ℕ) (h : Store NvRangeTab) (m : PmemHashMap F) where
  -- `getNode(hash, key)`; the version without the hash computes it first.
  unfoldable pub get_node : ℕ → Bytes → Run Ptr
  unfolding find_loop
  get_node hash key = do
    guard (not (m.tab_len == 0)) division_by_zero
    nod ← of_option out_of_bounds (get_elem? m.tab (hash % m.tab_len))
    find_loop fuel h nod hash key

  module _ (city_hash : Bytes → ℕ → ℕ → ℕ) where
    unfoldable pub get_node_by_key : Bytes → ℕ → Run Ptr
    unfolding get_node
    get_node_by_key key prefix_len = get_node (city_hash key prefix_len 16) key

    -- `fresh` is the address that `make_persistent<p_node>` returns, if it does; the writes are in one
    -- transaction.
    unfoldable pub put_and_get :
        Pool
        → (seq_init : ℕ) → (fresh : Option Ptr) → Bytes
        → ℕ
        → Run (Ptr × Store NvRangeTab × PmemHashMap F)
    unfolding new_node find_loop
    put_and_get pool seq_init fresh prefix buf_size = do
      let hash = city_hash prefix (length prefix) 16
      guard (not (m.tab_len == 0)) division_by_zero
      bucket_head_node ← of_option out_of_bounds (get_elem? m.tab (hash % m.tab_len))
      try2find ← find_loop fuel h bucket_head_node hash prefix
      let insert : Run (Ptr × Store NvRangeTab × PmemHashMap F) =
          of_option alloc_error fresh >>= λ newhead.
          new_node pool seq_init hash prefix buf_size >>= λ content. ok (
            newhead,
            update h newhead (record { next = bucket_head_node; p_content = content }),
            record m { tab = set m.tab (hash % m.tab_len) newhead },
          )
      if try2find == null then insert else ok (try2find, h, m)

    -- `put(prefix, bufSize)`: the hash of the node that is found or made.
    unfoldable pub put_prefix : Pool → (seq_init : ℕ) → (fresh : Option Ptr) → Bytes → ℕ → Run ℕ
    put_prefix pool seq_init fresh prefix buf_size = do
      (p, h', _) ← put_and_get pool seq_init fresh prefix buf_size
      n ← deref h' p
      ok n.p_content.hash_

    -- `get(key, prefixLen)`: the buffer of the node, or a null pointer. The source assigns the node to
    -- `node`, which is not declared; it is read as `nod`.
    unfoldable pub get_buf : Bytes → ℕ → Run (Option Buffer)
    unfolding get_node_by_key
    get_buf key prefix_len = do
      nod ← get_node_by_key key prefix_len
      let buf_of : Run (Option Buffer) = deref h nod >>= λ n. ok (some n.p_content.buf)
      if nod == null then ok none else buf_of

module _ {C F : Type 0} where
  -- `getAll` of this version. Its counter is an `int`, taken to reach the length of the table.
  unfoldable pub get_all_nodes : ℕ → Store C → PmemHashMap F → List C → Run (List C)
  get_all_nodes fuel h m node_vec = walk_all fuel h (take m.tab_len m.tab) node_vec

  -- `put(pop, p_content)` of this version: only an empty bucket takes the content.
  unfoldable pub put_content :
      (C → ℕ)
      → (fresh : Option Ptr) → Store C
      → PmemHashMap F
      → C
      → Run (Bool × Store C × PmemHashMap F)
  put_content hash_code fresh h m p_content = do
    guard (not (m.tab_len == 0)) division_by_zero
    let idx = hash_code p_content % m.tab_len
    bucket_head_node ← of_option out_of_bounds (get_elem? m.tab idx)
    let insert : Run (Bool × Store C × PmemHashMap F) = of_option alloc_error fresh >>= λ newhead.
        ok (
          true,
          update h newhead (record { next = null; p_content = p_content }),
          record m { tab = set m.tab idx newhead },
        )
    if bucket_head_node == null then insert else ok (true, h, m)
