-- ===== src/RangeTab/Refine.antt =====
-- A range as a list of chunks, of which the newest one with the key counts.
use rocksdb_pmdk.Base.{
  ℕ, zero, suc, ◌+◌, ◌≤◌, ◌≡◌, refl, ◌∙◌, ◌⊎◌, inl, inr, false, Bool-cases, Option-cases, some,
  none, Option, List, [], ◌∷◌, ◌++◌, Bytes, length, get_elem?, if◌then◌else◌, All, Run, ok, fault,
  out_of_range, ◌>>=◌, arith, Returns, subst, sym,
}
use mathlib.Core.List.{append_assoc, append-nil}
use rocksdb_pmdk.Chunk.Format.{chunk_bytes}
use rocksdb_pmdk.Comparator.{Comparator}
use rocksdb_pmdk.Memory.{Fixed64}
use rocksdb_pmdk.NvRangeTab.{Pool}
use rocksdb_pmdk.RangeTab.{append, get}
use rocksdb_pmdk.RangeTab.Append.{append_block-key_range, CanUpdate, CanUpdate-same, append-ok}
use rocksdb_pmdk.RangeTab.Cycle.{append_block-IsGrown}
use rocksdb_pmdk.RangeTab.Get.{IsRange, get-newest, get-absent}
use rocksdb_pmdk.RangeTab.Get.Rounds.{Chunk, IsChunk, Hits, Passes}
use rocksdb_pmdk.RangeTab.Search.{Status, ok_status}
use rocksdb_pmdk.RangeTab.Search.Sorted.{find_pair, StartsBy}
use rocksdb_pmdk.RangeTab.State.{Options, FixedRangeTab}

-- A property of the elements from number `j` on, with one more element in front.
from_suc :
    {A : Type 0} (P : A → Type 0) (x : A) (xs : List A) (j : ℕ)
    → ((i : ℕ) (a : A) → j ≤ i → get_elem? xs i ≡ some a → P a)
    → (i : ℕ) (a : A) → suc j ≤ i
    → get_elem? (x ∷ xs) i ≡ some a
    → P a
from_suc P x xs j h zero a le e = absurd (omega arith)
from_suc P x xs j h (suc i) a le e = h i a (omega arith) e

from_head :
    {A : Type 0} (P : A → Type 0) (x : A) (xs : List A)
    → P x
    → ((i : ℕ) (a : A) → get_elem? xs i ≡ some a → P a)
    → (i : ℕ) (a : A) → get_elem? (x ∷ xs) i ≡ some a
    → P a
from_head P x xs here later zero a e = let same : x ≡ a = cc in subst P same here
from_head P x xs here later (suc i) a e = later i a e

module _ (options : Options) (icmp : Comparator) (target : Bytes) where
  -- What a chunk has for the key, behind its filter.
  abbrev pub answer : Chunk → Option Bytes
  answer c = if options.key_may_match target c.bloom then find_pair icmp target c.pairs else none

  -- The specification of a read: the answer of the newest chunk that has one.
  abbrev pub newest : List Chunk → Option Bytes
  newest [] = none
  newest (c ∷ cs) = elim (newest cs) [ some v ↦ some v | none ↦ answer c ]

  -- The filter holds the key back, or the chunk starts at or before it.
  abbrev pub IsOpen : Chunk → Type 0
  IsOpen c = (options.key_may_match target c.bloom ≡ false) ⊎ StartsBy icmp target c.pairs

  pub record IsNewest (cs : List Chunk) (v : Bytes) : Type 0 where
    pub index : ℕ
    pub chunk : Chunk
    pub at : get_elem? cs index ≡ some chunk
    pub hits : Hits options icmp target chunk v
    pub later :
        (i : ℕ) (c : Chunk) → suc index ≤ i → get_elem? cs i ≡ some c → Passes options icmp target c

  answer-cases :
      (c : Chunk)
      → IsOpen c
      → (Passes options icmp target c × (answer c ≡ none))
        ⊎ ((v : Bytes) × Hits options icmp target c v × (answer c ≡ some v))
  answer-cases c (inl filtered) = inl (inl filtered, rw filtered refl)
  answer-cases c (inr starts) = elim (Bool-cases (options.key_may_match target c.bloom)) [
    | inr filtered ↦ inl (inl filtered, rw filtered refl)
    | inl may ↦ elim (Option-cases (find_pair icmp target c.pairs)) [
      | inl miss ↦ inl (inr (may, starts, miss), rw may miss)
      | inr (v, hit) ↦ inr (v, (may, starts, hit), rw may hit)
    ]
  ]

  newest-cases :
      (cs : List Chunk)
      → All IsOpen cs
      → (((i : ℕ) (c : Chunk) → get_elem? cs i ≡ some c → Passes options icmp target c)
          × (newest cs ≡ none))
        ⊎ ((v : Bytes) × IsNewest cs v × (newest cs ≡ some v))
  newest-cases [] open_all = inl ((λ i c e. absurd (cc)), refl)
  newest-cases (c ∷ cs) open_all = elim (newest-cases cs open_all.1) [
    | inr (v, n, e) ↦
        let later = from_suc (Passes options icmp target) c cs (suc n.index) n.later in
        inr (
          v,
          record { index = suc n.index; chunk = n.chunk; at = n.at; hits = n.hits; later = later },
          rw e refl,
        )
    | inl (pass, e) ↦ elim (answer-cases c open_all.0) [
      | inr (v, hits, a) ↦
          let later = from_suc (Passes options icmp target) c cs 0 (λ i d le at. pass i d at) in
          inr (
            v,
            record { index = 0; chunk = c; at = refl; hits = hits; later = later },
            rw (e, a) refl,
          )
      | inl (miss, a) ↦ inl (from_head (Passes options icmp target) c cs miss pass, rw (e, a) refl)
    ]
  ]

-- What a call of `Append` is given.
pub record Piece : Type 0 where
  pub chunk : Chunk
  pub start : Bytes
  pub end : Bytes

-- A series of appends.
unfoldable pub append_all :
    ⦃fixed : Fixed64⦄ → Options → Comparator → Pool → List Piece → FixedRangeTab → Run FixedRangeTab
append_all options icmp pool [] t = ok t
append_all options icmp pool (k ∷ ks) t =
    append options icmp pool t k.chunk.bloom (chunk_bytes k.chunk.pairs k.chunk.gap) k.start k.end
    >>= append_all options icmp pool ks

abbrev pub chunks_in : List Piece → List Chunk
chunks_in [] = []
chunks_in (k ∷ ks) = k.chunk ∷ chunks_in ks

-- The bytes that the chunks take in the buffer.
abbrev pub room : ⦃fixed : Fixed64⦄ → List Chunk → ℕ
room [] = 0
room (c ∷ cs) = 16 + length (chunk_bytes c.pairs c.gap) + room cs

module _ ⦃fixed : Fixed64⦄ (sizeof_p_buf : ℕ) (options : Options) (icmp : Comparator)
    (target : Bytes) where
  -- What `Get` makes of the answer: it throws where there is none.
  abbrev pub outcome : Option Bytes → Run (Status × Bytes)
  outcome none = fault out_of_range
  outcome (some v) = ok (ok_status, v)

  pub get-newest_lem :
      (t : FixedRangeTab) (base : ℕ) (cs : List Chunk) (out : Bytes)
      → IsRange sizeof_p_buf options icmp t target base cs
      → All (IsOpen options icmp target) cs
      → get sizeof_p_buf options icmp t target out ≡ outcome (newest options icmp target cs)
  get-newest_lem t base cs out r open_all = elim (newest-cases options icmp target cs open_all) [
    | inl (pass, e) ↦
        get-absent sizeof_p_buf options icmp t target base cs r out (λ i c le at. pass i c at)
        ∙ rw e refl
    | inr (v, n, e) ↦
        get-newest sizeof_p_buf options icmp t target base cs r n.index n.chunk v out n.at n.hits
          n.later
        ∙ rw e refl
  ]

  -- A chunk that can be appended, and that does not stop the search.
  pub record IsFit (c : Chunk) : Type 0 where
    pub well : IsChunk sizeof_p_buf icmp c
    pub filter : length c.bloom ≡ 8
    pub starts : IsOpen options icmp target c

  module _ (pool : Pool) where
    -- The key range of the table can be updated by each of the calls.
    abbrev pub CanUpdateAll : FixedRangeTab → List Piece → Type 0
    CanUpdateAll t ks = All (λ k. CanUpdate icmp pool t.nv k.start k.end) ks

    CanUpdateAll-same :
        (t t' : FixedRangeTab) (ks : List Piece)
        → t'.nv.key_range ≡ t.nv.key_range
        → CanUpdateAll t ks
        → CanUpdateAll t' ks
    CanUpdateAll-same t t' [] same can = tt
    CanUpdateAll-same t t' (k ∷ ks) same can = (
      CanUpdate-same icmp pool t.nv t'.nv k.start k.end same can.0,
      CanUpdateAll-same t t' ks same can.1,
    )

    append_all-IsRange :
        (ks : List Piece) (t : FixedRangeTab) (base : ℕ) (cs : List Chunk)
        → options.chunk_bloom_bits ≡ 8
        → IsRange sizeof_p_buf options icmp t target base cs
        → All IsFit (chunks_in ks)
        → t.nv.data_len + room (chunks_in ks) ≤ t.nv.buf.size
        → CanUpdateAll t ks
        → Returns
            (append_all options icmp pool ks t)
            λ r. IsRange sizeof_p_buf options icmp r target base (cs ++ chunks_in ks)
    unfolding append_all
    append_all-IsRange [] t base cs bits range fits enough can = (
      t,
      refl,
      subst (λ (x : List Chunk). IsRange sizeof_p_buf options icmp t target base x)
          (sym (append-nil cs)) range,
    )
    append_all-IsRange (k ∷ ks) t base cs bits range fits enough can =
        let body = chunk_bytes k.chunk.pairs k.chunk.gap in
        let (s, stored, g) =
          append_block-IsGrown options t bits sizeof_p_buf icmp target base cs k.chunk range
            fits.0.well fits.0.filter (omega arith) in
        let run = append-ok icmp pool options t s k.chunk.bloom body k.start k.end stored can.0 in
        let kept = append_block-key_range options t s k.chunk.bloom body stored in
        let (r, runs, whole) =
          append_all-IsRange ks s base (cs ++ k.chunk ∷ []) bits g.range fits.1
            (omega (arith, g.used, g.same_size)) (CanUpdateAll-same t s ks kept can.1) in
        (
          r,
          rw run runs,
          subst (λ (x : List Chunk). IsRange sizeof_p_buf options icmp r target base x)
              (append_assoc cs (k.chunk ∷ []) (chunks_in ks)) whole,
        )

  All-IsOpen :
      (cs ks : List Chunk)
      → All (IsOpen options icmp target) cs
      → All IsFit ks
      → All (IsOpen options icmp target) (cs ++ ks)
  All-IsOpen [] [] h f = tt
  All-IsOpen [] (k ∷ ks) h f = (f.0.starts, All-IsOpen [] ks tt f.1)
  All-IsOpen (c ∷ cs) ks h f = (h.0, All-IsOpen cs ks h.1 f)

  -- A range of well-formed chunks refines the list of its chunks: where the filters take eight bytes,
  -- the buffer has room and the key range of the table can be updated by each call, any series of
  -- appends of well-formed chunks returns, and `Get` then returns the answer of the newest chunk, old
  -- or new, that has one for the key, or throws `std::out_of_range` if none has, as long as every
  -- chunk has its filter hold the key back or starts at or before it.
  pub get-append_all :
      (pool : Pool) (ks : List Piece) (t : FixedRangeTab) (base : ℕ) (cs : List Chunk) (out : Bytes)
      → options.chunk_bloom_bits ≡ 8
      → IsRange sizeof_p_buf options icmp t target base cs
      → All (IsOpen options icmp target) cs
      → All IsFit (chunks_in ks)
      → t.nv.data_len + room (chunks_in ks) ≤ t.nv.buf.size
      → CanUpdateAll pool t ks
      → Returns (append_all options icmp pool ks t) λ r.
        get sizeof_p_buf options icmp r target out
        ≡ outcome (newest options icmp target (cs ++ chunks_in ks))
  get-append_all pool ks t base cs out bits range open_all fits enough can =
      let (r, run, whole) = append_all-IsRange pool ks t base cs bits range fits enough can in
      (
        r,
        run,
        get-newest_lem r base (cs ++ chunks_in ks) out whole
            (All-IsOpen cs (chunks_in ks) open_all fits),
      )
