-- ===== src/HashMap/Nodes/Lookup.antt =====
-- Finding the node of a prefix, and making it once.
use rocksdb_pmdk.Base.{
  ℕ, zero, suc, ◌+◌, ◌%◌, ◌<◌, ◌≡◌, refl, ◌∙◌, ◌≢◌, ◌⊎◌, inl, inr, Bool, true, false, ◌&&◌, Option,
  some, none, List, [], ◌∷◌, ◌++◌, Bytes, length, length-append, get_elem?, set, All, ◌==◌, ==_refl,
  if◌then◌else◌, Bool-cases, ok, arith, Returns, le→leb,
}
use rocksdb_pmdk.HashMap.{PmemHashMap}
use rocksdb_pmdk.HashMap.Heap.{Ptr, null, Node, Store, update, deref, Seg, nil, cons}
use rocksdb_pmdk.HashMap.Nodes.{c_text, eq_bytes, strcmp_eq, find_loop, new_node, put_and_get}
use rocksdb_pmdk.Memory.{Buffer, read, write, load, store-ok, read-Holds, Holds-write_self}
use rocksdb_pmdk.NvRangeTab.{NvRangeTab, Pool}

pub eq_bytes_refl : (xs : Bytes) → eq_bytes xs xs ≡ true
eq_bytes_refl [] = refl
eq_bytes_refl (x ∷ xs) = rw (==_refl x, eq_bytes_refl xs)

pub c_text-append_zero : (xs : Bytes) → c_text (xs ++ 0 ∷ []) ≡ c_text xs
c_text-append_zero [] = refl
c_text-append_zero (x ∷ xs) = rw (c_text-append_zero xs)

-- The node has the hash, and its stored prefix is the key for `strcmp`.
abbrev pub is_match : ℕ → Bytes → NvRangeTab → Bool
is_match hash key c = c.hash_ == hash && strcmp_eq (read c.prefix.cells 0 c.prefix.size) key

load-all : (b : Buffer) → load b 0 b.size ≡ ok (read b.cells 0 b.size)
unfolding load
load-all b = rw (le→leb (0 + b.size) b.size (omega arith))

module _ (h : Store NvRangeTab) (hash : ℕ) (key : Bytes) where
  pub find_loop-step :
      (fuel : ℕ) (p : Ptr) (n : Node NvRangeTab)
      → p ≢ null
      → h p ≡ some n
      → find_loop (suc fuel) h p hash key
        ≡ (if is_match hash key n.p_content then ok p else find_loop fuel h n.next hash key)
  unfolding find_loop deref
  find_loop-step fuel p n ne e =
      let live : (p == null) ≡ false = ground arith in rw (live, e, load-all n.p_content.prefix)

  pub find_loop-first :
      (fuel : ℕ) (p : Ptr) (n : Node NvRangeTab)
      → 0 < fuel
      → p ≢ null
      → h p ≡ some n
      → is_match hash key n.p_content ≡ true
      → find_loop fuel h p hash key ≡ ok p
  find_loop-first zero p n pos ne e hit = absurd (omega arith)
  find_loop-first (suc fuel) p n pos ne e hit = find_loop-step fuel p n ne e ∙ rw hit

  -- What the search gives for a chain with the contents `xs`.
  abbrev pub Finds : List NvRangeTab → Ptr → Type 0
  Finds xs q =
      ((q ≡ null) × All (λ c. is_match hash key c ≡ false) xs)
      ⊎ ((q ≢ null)
          × ((n : Node NvRangeTab) × (h q ≡ some n) × (is_match hash key n.p_content ≡ true)))

  found_later :
      (q : Ptr) (c : NvRangeTab) (xs : List NvRangeTab)
      → Finds xs q
      → is_match hash key c ≡ false
      → Finds (c ∷ xs) q
  found_later q c xs (inl (e, none_hit)) miss = inl (e, (miss, none_hit))
  found_later q c xs (inr hit) miss = inr hit

  pub find_loop-Finds :
      (fuel : ℕ) {p : Ptr} {xs : List NvRangeTab}
      → Seg h p xs
      → length xs < fuel
      → Returns (find_loop fuel h p hash key) (Finds xs)
  find_loop-Finds zero s enough = absurd (omega arith)
  find_loop-Finds (suc fuel) nil enough = (null, unfold find_loop in refl, inl (refl, tt))
  find_loop-Finds (suc fuel) (cons {p} {c = c} {xs = xs} ne e s) enough =
      elim (Bool-cases (is_match hash key c)) [
        | inl hit ↦ (p, find_loop-step fuel p _ ne e ∙ rw hit, inr (ne, (_, e, hit)))
        | inr miss ↦
            let (q, run, found) = find_loop-Finds fuel s (omega arith) in
            (q, find_loop-step fuel p _ ne e ∙ rw miss run, found_later q c xs found miss)
      ]

-- The content of the new node, with its two arrays.
abbrev pub node_of : ℕ → ℕ → Bytes → ℕ → Buffer → Buffer → NvRangeTab
node_of seq_init hash prefix buf_size b₁ b₂ = record {
  hash_ = hash;
  prefix_len = length prefix;
  prefix = record b₁ { cells = write b₁.cells 0 (prefix ++ 0 ∷ []) };
  key_range = none;
  chunk_num = 0;
  seq_num = seq_init;
  buf_size = buf_size;
  buf = b₂;
  data_len = 0;
  extra_buf = 0;
}

-- The new node is found under its own hash and prefix.
pub new_node-is_match :
    (pool : Pool) (seq_init hash : ℕ) (prefix : Bytes) (buf_size : ℕ) (b₁ b₂ : Buffer)
    → pool.allocate (length prefix + 1) ≡ some b₁
    → pool.allocate buf_size ≡ some b₂
    → (new_node pool seq_init hash prefix buf_size
        ≡ ok (node_of seq_init hash prefix buf_size b₁ b₂))
      × (is_match hash prefix (node_of seq_init hash prefix buf_size b₁ b₂) ≡ true)
unfolding new_node
new_node-is_match pool seq_init hash prefix buf_size b₁ b₂ e₁ e₂ =
    let text = prefix ++ 0 ∷ [] in
    let size = pool.allocate-size _ b₁ e₁ in
    let len = length-append prefix (0 ∷ []) in
    let whole : b₁.size ≡ length text = omega arith in
    let back = read-Holds (write b₁.cells 0 text) 0 text (Holds-write_self b₁.cells 0 text) in
    (
      rw (e₁, store-ok b₁ 0 text (omega arith), e₂),
      rw (==_refl hash, whole, back, c_text-append_zero prefix, eq_bytes_refl (c_text prefix)),
    )

module _ {F : Type 0} (fuel : ℕ) (h : Store NvRangeTab) (m : PmemHashMap F)
    (city_hash : Bytes → ℕ → ℕ → ℕ) (pool : Pool) (seq_init : ℕ) (prefix : Bytes)
    (buf_size : ℕ) where
  abbrev pub hash : ℕ
  hash = city_hash prefix (length prefix) 16

  abbrev pub slot : ℕ
  slot = hash % m.tab_len

  module _ (roomy : 0 < m.tab_len) (head q : Ptr) (at : get_elem? m.tab slot ≡ some head)
      (run : find_loop fuel h head hash prefix ≡ ok q) where
    pub put_and_get-found :
        (fresh : Option Ptr)
        → q ≢ null
        → put_and_get fuel h m city_hash pool seq_init fresh prefix buf_size ≡ ok (q, h, m)
    unfolding put_and_get
    put_and_get-found fresh ne =
        let nonzero : (m.tab_len == 0) ≡ false = ground arith in
        let live : (q == null) ≡ false = ground arith in rw (nonzero, at, run, live)

    pub put_and_get-new :
        (a : Ptr) (c : NvRangeTab)
        → q ≡ null
        → new_node pool seq_init hash prefix buf_size ≡ ok c
        → put_and_get fuel h m city_hash pool seq_init (some a) prefix buf_size
          ≡ ok (
            a,
            update h a (record { next = head; p_content = c }),
            record m { tab = set m.tab slot a },
          )
    unfolding put_and_get
    put_and_get-new a c e made =
        let nonzero : (m.tab_len == 0) ≡ false = ground arith in rw (nonzero, at, run, e, made)
