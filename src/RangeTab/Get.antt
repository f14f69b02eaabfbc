-- ===== src/RangeTab/Get.antt =====
-- Reading a key from a range, from the newest chunk to the oldest.
pub mod Rounds
use rocksdb_pmdk.Base.{
  ℕ, zero, suc, ◌+◌, ◌-◌, ◌<◌, ◌≤◌, ◌^◌, ◌≡◌, refl, ◌∙◌, some, none, List, Bytes, length,
  length-map, get_elem?, get_elem?-lt, get_elem?-none, lt_of_get_elem?, map, Run, ok, fault,
  out_of_range, arith,
}
use native.Mathlib.Decide.{dec_lt}
use rocksdb_pmdk.Base.Words.{sub64}
use rocksdb_pmdk.Comparator.{Comparator}
use rocksdb_pmdk.Memory.{Fixed64}
use rocksdb_pmdk.RangeTab.{get_loop, get}
use rocksdb_pmdk.RangeTab.Blocks.{blocks_at, IsStored, image, length-le-image, length-blocks_at}
use rocksdb_pmdk.RangeTab.Search.{ok_status}
use rocksdb_pmdk.RangeTab.State.{Options, FixedRangeTab}
use Rounds.{Chunk, block_of, IsChunk, Hits, Passes, get_loop-Passes, get_loop-Hits, stored-Reads}

module _ ⦃fixed : Fixed64⦄ (sizeof_p_buf : ℕ) (options : Options) (icmp : Comparator)
    (t : FixedRangeTab) (target : Bytes) where
  -- The range holds the chunks, and its block list lists them; each is well-formed.
  pub record IsRange (base : ℕ) (cs : List Chunk) : Type 0 where
    pub stored : IsStored options.chunk_bloom_bits t.nv base (map block_of cs)
    pub listed : t.blklist ≡ blocks_at options.chunk_bloom_bits base (map block_of cs)
    pub chunks : (i : ℕ) (c : Chunk) → get_elem? cs i ≡ some c → IsChunk sizeof_p_buf icmp c

  -- The chunks behind number `j` have nothing to say about the key.
  abbrev pub AllPass : ℕ → List Chunk → Type 0
  AllPass j cs =
      (i : ℕ) (c : Chunk) → j ≤ i → get_elem? cs i ≡ some c → Passes options icmp target c

  length-listed : (base : ℕ) (cs : List Chunk) → IsRange base cs → length t.blklist ≡ length cs
  length-listed base cs r =
      rw r.listed
        (length-blocks_at options.chunk_bloom_bits base (map block_of cs) ∙ length-map block_of cs)

  few : (base : ℕ) (cs : List Chunk) → IsRange base cs → length cs < 2 ^ 62
  few base cs r = omega (
    arith,
    length-le-image (map block_of cs),
    length-map block_of cs,
    r.stored.ends,
    r.stored.fits,
    r.stored.small,
  )

  -- The rounds for `k` chunks that pass, from number `j + k` down to number `j`.
  get_loop-skip :
      (base : ℕ) (cs : List Chunk) (r : IsRange base cs) (j k fuel : ℕ) (out : Bytes)
      → AllPass (suc j) cs
      → j + k < length cs
      → get_loop sizeof_p_buf options icmp t target (k + fuel) (j + k) out
        ≡ get_loop sizeof_p_buf options icmp t target fuel j out
  get_loop-skip base cs r j zero fuel out pass lt =
      let e₁ : 0 + fuel ≡ fuel = omega arith in let e₂ : j + 0 ≡ j = omega arith in rw (e₁, e₂)
  get_loop-skip base cs r j (suc k) fuel out pass lt =
      let (c, e) = get_elem?-lt cs (j + suc k) lt in
      let ok_chunk = r.chunks (j + suc k) c e in
      let read =
        stored-Reads sizeof_p_buf options icmp t target base cs (j + suc k) c r.stored r.listed e
          ok_chunk in
      let e₁ : suc k + fuel ≡ suc (k + fuel) = omega arith in
      let e₂ : sub64 (j + suc k) 1 ≡ j + k = omega (arith, few base cs r) in
      rw e₁ (
        get_loop-Passes sizeof_p_buf options icmp t target (k + fuel) (j + suc k) out c read
          ok_chunk (pass (j + suc k) c (omega arith) e)
        ∙ rw e₂ (get_loop-skip base cs r j k fuel out pass (omega arith)))

  -- `Get` on a range of well-formed chunks returns the value that the newest chunk with the key
  -- has, if the filter of that chunk lets the key through, if it starts at or before the key, and
  -- if each newer chunk either is held back by its filter or starts at or before the key and lacks
  -- it.
  pub get-newest :
      (base : ℕ) (cs : List Chunk) (r : IsRange base cs) (j : ℕ) (c : Chunk) (v out : Bytes)
      → get_elem? cs j ≡ some c
      → Hits options icmp target c v
      → AllPass (suc j) cs
      → get sizeof_p_buf options icmp t target out ≡ ok (ok_status, v)
  unfolding get
  get-newest base cs r j c v out e h pass =
      let n = length cs in
      let j-lt = lt_of_get_elem? cs j e in
      let k = n - 1 - j in
      let len = length-listed base cs r in
      let read =
        stored-Reads sizeof_p_buf options icmp t target base cs j c r.stored r.listed e
          (r.chunks j c e) in
      let e₁ : n + 1 ≡ k + suc (suc j) = omega arith in
      let e₂ : sub64 n 1 ≡ j + k = omega (arith, few base cs r) in
      rw (len, e₁, e₂)
        (get_loop-skip base cs r j k (suc (suc j)) out pass (omega arith)
          ∙ get_loop-Hits sizeof_p_buf options icmp t target (suc j) j out c read v (r.chunks j c e)
              h)

  -- Beyond the last block, where a wrapped index points, `at` throws.
  get_loop-wrapped :
      (base : ℕ) (cs : List Chunk) (r : IsRange base cs) (fuel : ℕ) (out : Bytes)
      → get_loop sizeof_p_buf options icmp t target (suc fuel) (2 ^ 64 - 1) out ≡ fault out_of_range
  unfolding get_loop
  get_loop-wrapped base cs r fuel out = rw (
      get_elem?-none t.blklist (2 ^ 64 - 1) (omega (arith, length-listed base cs r, few base cs r)))

  -- If every chunk either is held back by its filter, or starts at or before the key and does not
  -- have it, then `Get` does not report that the key is absent: it throws `std::out_of_range`.
  pub get-absent :
      (base : ℕ) (cs : List Chunk) (r : IsRange base cs) (out : Bytes)
      → AllPass 0 cs
      → get sizeof_p_buf options icmp t target out ≡ fault out_of_range
  unfolding get
  get-absent base cs r out pass =
      let n = length cs in
      let len = length-listed base cs r in
      elim (dec_lt 0 n) [
        | yes pos ↦
            let k = n - 1 in
            let (c, e) = get_elem?-lt cs 0 pos in
            let ok_chunk = r.chunks 0 c e in
            let read =
              stored-Reads sizeof_p_buf options icmp t target base cs 0 c r.stored r.listed e
                ok_chunk in
            let e₁ : n + 1 ≡ k + 2 = omega arith in
            let e₂ : sub64 n 1 ≡ 0 + k = omega (arith, few base cs r) in
            rw (len, e₁, e₂)
              (get_loop-skip base cs r 0 k 2 out (λ i d le. pass i d (omega arith)) (omega arith)
                ∙ get_loop-Passes sizeof_p_buf options icmp t target 1 0 out c read ok_chunk
                    (pass 0 c (omega arith) e)
                ∙ get_loop-wrapped base cs r 0 out)
        | no empty ↦
            let e₁ : n + 1 ≡ 1 = omega arith in
            let e₂ : sub64 n 1 ≡ 2 ^ 64 - 1 = omega arith in
            rw (len, e₁, e₂) (get_loop-wrapped base cs r 0 out)
      ]
