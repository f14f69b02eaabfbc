-- ===== src/Cache/Contents/Series.antt =====
-- Any series of appends to the cache, to old and new prefixes, from a new pool on.
use rocksdb_pmdk.Base.{
  ℕ, suc, ◌+◌, ◌<◌, ◌≤◌, ◌^◌, ◌≡◌, ◌≢◌, refl, ◌∙◌, subst, Bool, Bool-cases, inl, inr, Option, none,
  some, Option-cases, List, [], ◌∷◌, ◌++◌, All, Bytes, length, Run, ok, ◌>>=◌, Returns, arith,
}
use mathlib.Core.Path.{fun_ext}
use rocksdb_pmdk.Cache.{WriteCache, append_to_range, new_range}
use rocksdb_pmdk.Cache.Contents.{Model, put, IsText, Slot, Keeps}
use rocksdb_pmdk.Cache.Contents.Appends.{Frees, append-Keeps}
use rocksdb_pmdk.Cache.Contents.Steps.{IsAmple}
use rocksdb_pmdk.Cache.Contents.Fresh.{new_range-Keeps}
use rocksdb_pmdk.Cache.Ranges.{Range, find}
use rocksdb_pmdk.Chunk.Format.{chunk_bytes}
use rocksdb_pmdk.Comparator.{Comparator}
use rocksdb_pmdk.HashMap.Heap.{Ptr, null}
use rocksdb_pmdk.HashMap.Nodes.{eq_bytes}
use rocksdb_pmdk.HashMap.Nodes.Lookup.{eq_bytes_refl}
use rocksdb_pmdk.Memory.{Fixed64}
use rocksdb_pmdk.NvRangeTab.{Pool}
use rocksdb_pmdk.RangeTab.Get.Rounds.{Chunk, IsChunk}
use rocksdb_pmdk.RangeTab.Refine.{room}
use rocksdb_pmdk.RangeTab.State.{Options}

-- A call of `AppendToRange`; `address` is where `make_persistent` puts a node, if it makes one.
pub record Request : Type 0 where
  pub prefix : Bytes
  pub chunk : Chunk
  pub start : Bytes
  pub end : Bytes
  pub address : Ptr

abbrev pub chunks_of : Option (List Chunk) → List Chunk
chunks_of none = []
chunks_of (some cs) = cs

-- The prefix has one chunk more.
abbrev pub note : Model → Request → Model
note m q = put q.prefix (chunks_of (m q.prefix) ++ q.chunk ∷ []) m

abbrev pub note_all : Model → List Request → Model
note_all m [] = m
note_all m (q ∷ qs) = note_all (note m q) qs

put_twice : (p : Bytes) (xs ys : List Chunk) (m : Model) → put p ys (put p xs m) ≡ put p ys m
put_twice p xs ys m =
    fun_ext (λ q. elim (Bool-cases (eq_bytes q p)) [
      | inl same ↦ rw same refl
      | inr other ↦ rw other refl
    ])

module _ ⦃fixed : Fixed64⦄ (sizeof_p_buf : ℕ) (options : Options) (icmp : Comparator) where
  -- A well-formed chunk for which the buffer of the prefix has room.
  pub record IsServable (m : Model) (q : Request) : Type 0 where
    pub text : IsText q.prefix
    pub chunk : IsChunk sizeof_p_buf icmp q.chunk
    pub filter : length q.chunk.bloom ≡ 8
    pub fits : room (chunks_of (m q.prefix) ++ q.chunk ∷ []) ≤ 2 ^ 26

  abbrev pub AreServable : Model → List Request → Type 0
  AreServable m [] = Unit
  AreServable m (q ∷ qs) = IsServable m q × AreServable (note m q) qs

  abbrev pub AreFresh : {F : Type 0} → WriteCache F → List Request → Type 0
  AreFresh c [] = Unit
  AreFresh c (q ∷ qs) =
      (q.address ≢ null)
      × (c.heap q.address ≡ none)
      × All (λ x. x.address ≢ q.address) qs
      × AreFresh c qs

  AreFresh-Frees :
      {F : Type 0} (c c' : WriteCache F) (a : Ptr) (qs : List Request)
      → Frees c c' a
      → All (λ x. x.address ≢ a) qs
      → AreFresh c qs
      → AreFresh c' qs
  AreFresh-Frees c c' a [] keep other fresh = tt
  AreFresh-Frees c c' a (q ∷ qs) keep other (live, free, apart, fresh) =
      (live, keep q.address other.0 free, apart, AreFresh-Frees c c' a qs keep other.1 fresh)

  Keeps-suc :
      {F : Type 0} (n : ℕ) (m : Model) (c : WriteCache F)
      → Keeps sizeof_p_buf options icmp n m c
      → Keeps sizeof_p_buf options icmp (suc n) m c
  Keeps-suc n m c v = record {
    slots = v.slots;
    named = v.named;
    numberless = v.numberless;
    width = v.width;
    roomy = v.roomy;
    distinct = v.distinct;
    chains = λ i p e. let (xs, s, le) = v.chains i p e in (xs, s, omega (arith, le));
  }

  module _ {F : Type 0} (fuel : ℕ) (city_hash : Bytes → ℕ → ℕ → ℕ) (pool : Pool)
      (in_compaction : Bool) where
    abbrev pub serve : WriteCache F → Request → Run (WriteCache F)
    serve c q =
        append_to_range options fuel city_hash pool 0 in_compaction icmp (some q.address) c q.prefix
          q.chunk.bloom (chunk_bytes q.chunk.pairs q.chunk.gap) q.start q.end

    unfoldable pub serve_all : List Request → WriteCache F → Run (WriteCache F)
    serve_all [] c = ok c
    serve_all (q ∷ qs) c = serve c q >>= serve_all qs

    -- With a new range the append goes on as for an old one.
    serve_new :
        (c c' : WriteCache F) (q : Request) (range : Range)
        → find q.prefix c.prefix2range ≡ none
        → new_range options fuel city_hash pool 0 in_compaction (some q.address) c q.prefix
          ≡ ok (range, c')
        → find q.prefix c'.prefix2range ≡ some range
        → serve c q ≡ serve c' q
    unfolding append_to_range
    serve_new c c' q range gone made listed = rw (gone, made, listed) refl

    module _ (bits : options.chunk_bloom_bits ≡ 8) (ample : IsAmple pool) where
      serve-Keeps :
          (n : ℕ) (m : Model) (c : WriteCache F) (q : Request)
          → Keeps sizeof_p_buf options icmp n m c
          → n < fuel
          → IsServable m q
          → q.address ≢ null
          → c.heap q.address ≡ none
          → Returns
              (serve c q)
              λ c'. Keeps sizeof_p_buf options icmp (suc n) (note m q) c' × Frees c c' q.address
      serve-Keeps n m c q v enough good live free =
          let append = λ (n' : ℕ) (m' : Model) (d : WriteCache F) (cs : List Chunk).
            append-Keeps sizeof_p_buf options icmp pool bits ample fuel city_hash 0 in_compaction
              (some q.address) n' m' d q.prefix q.start q.end cs q.chunk in
          elim (Option-cases (m q.prefix)) [
            | inr (cs, has) ↦
                let (c', run, (kept, frees)) =
                  append n m c cs v has good.chunk good.filter (rw has at good.fits) in
                (c', run, (rw has (Keeps-suc n _ c' kept), frees q.address))
            | inl missing ↦
                let gone : find q.prefix c.prefix2range ≡ none =
                  subst (λ (x : Option (List Chunk)). Slot sizeof_p_buf options icmp c q.prefix x)
                    missing (v.slots q.prefix) in
                let ((range, d), made, (kept, listed, first)) =
                  new_range-Keeps sizeof_p_buf options icmp n m c v q.prefix good.text missing fuel
                    city_hash pool ample in_compaction enough q.address live free in
                let m' = put q.prefix [] m in
                let has : m' q.prefix ≡ some [] = rw (eq_bytes_refl q.prefix) refl in
                let (c', run, (done, frees)) =
                  append (suc n) m' d [] kept has good.chunk good.filter
                    (rw missing at good.fits) in
                (
                  c',
                  serve_new c d q range gone made listed ∙ run,
                  (
                    rw missing (
                        subst (λ (x : Model). Keeps sizeof_p_buf options icmp (suc n) x c')
                          (put_twice q.prefix [] (q.chunk ∷ []) m) done),
                    λ p far none_there. frees q.address p far (first p far none_there),
                  ),
                )
          ]

      pub serve_all-Keeps :
          (qs : List Request) (n : ℕ) (m : Model) (c : WriteCache F)
          → Keeps sizeof_p_buf options icmp n m c
          → n + length qs ≤ fuel
          → AreServable m qs
          → AreFresh c qs
          → Returns (serve_all qs c) λ c'.
            (k : ℕ) × (k ≤ n + length qs) × Keeps sizeof_p_buf options icmp k (note_all m qs) c'
      unfolding serve_all
      serve_all-Keeps [] n m c v enough good fresh = (c, refl, (n, omega arith, v))
      serve_all-Keeps (q ∷ qs) n m c v enough good (live, free, apart, fresh) =
          let (d, run, (kept, frees)) = serve-Keeps n m c q v (omega arith) good.0 live free in
          let (c', runs, (k, le, done)) =
            serve_all-Keeps qs (suc n) (note m q) d kept (omega arith) good.1
              (AreFresh-Frees c d q.address qs frees apart fresh) in
          (c', rw run runs, (k, omega (arith, le), done))
