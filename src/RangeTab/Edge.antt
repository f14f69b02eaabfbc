-- ===== src/RangeTab/Edge.antt =====
-- What a range does at its edges: a full buffer, an empty one, a clean-up, and the key range.
use rocksdb_pmdk.Base.{
  ℕ, zero, suc, ◌+◌, ◌-◌, ◌*◌, ◌<◌, ◌^◌, ◌≡◌, refl, ◌∙◌, sym, ◌≢◌, inl, inr, List, [], ◌∷◌, ◌++◌,
  Bytes, length, take-all, get_elem?, ltb, le→leb, Run, ok, fault, out_of_bounds, out_of_range,
  of_option, >>=-eq-ok, arith, Bool-cases,
}
use mathlib.Core.List.{append_assoc, append-nil}
use rocksdb_pmdk.Base.Words.{add64, sub64}
use rocksdb_pmdk.ChunkBlk.{ChunkBlk, get_dat_offset}
use rocksdb_pmdk.Chunk.Iterator.{open_chunk}
use rocksdb_pmdk.Comparator.{Comparator}
use rocksdb_pmdk.Memory.{Fixed64, load, store, load64, store64}
use rocksdb_pmdk.NvRangeTab.{NvRangeTab, Pool}
use rocksdb_pmdk.RangeTab.{
  rebuild_loop, rebuild_blk_list, append_block, append, clean_up, get_loop, get, consistency_check,
}
use rocksdb_pmdk.RangeTab.Search.{Status, ok_status, not_found, search_in_chunk}
use rocksdb_pmdk.RangeTab.State.{Options, FixedRangeTab, set_extra_buf}

ok-injective : {A : Type 0} {a b : A} → ok a ≡ ok b → a ≡ b
ok-injective h = cc

by_status :
    (s : Status) (out : Bytes) (r : Status × Bytes) {next : Run (Status × Bytes)}
    → (next ≡ ok r → r.0 ≡ ok_status)
    → (elim s [ ok_status ↦ ok (ok_status, out) | not_found ↦ next ]) ≡ ok r
    → r.0 ≡ ok_status
by_status ok_status out r again h = cc (ok-injective h)
by_status not_found out r again h = again h

-- The list only grows at its end.
rebuild_loop-prefix :
    ⦃fixed : Fixed64⦄ (fuel bits : ℕ) (nv : NvRangeTab) (offset : ℕ) (acc r : List ChunkBlk)
    → rebuild_loop fuel bits nv offset acc ≡ ok r
    → (more : List ChunkBlk) × (r ≡ acc ++ more)
unfolding rebuild_loop
rebuild_loop-prefix zero bits nv offset acc r h = absurd (cc)
rebuild_loop-prefix (suc fuel) bits nv offset acc r h = elim (Bool-cases (ltb offset nv.data_len)) [
  | inr done ↦ ([], ok-injective (sym (rw done at h)) ∙ sym (append-nil acc))
  | inl more ↦
      let (n, e, f) = >>=-eq-ok (load64 nv.buf (add64 offset bits)) _ (rw more at h) in
      let (rest, e') = rebuild_loop-prefix fuel bits nv _ (acc ++ _ ∷ []) r f in
      (_ ∷ rest, e' ∙ append_assoc acc _ rest)
]

-- A list that is rebuilt from nothing begins at the offset where the loop began.
rebuild_loop-first :
    ⦃fixed : Fixed64⦄ (fuel bits : ℕ) (nv : NvRangeTab) (offset : ℕ) (r : List ChunkBlk) (n : ℕ)
    → rebuild_loop fuel bits nv offset [] ≡ ok r
    → 0 < offset
    → r ≢ record { bloom_bits = bits; offset = 0; chunk_len = n } ∷ []
unfolding rebuild_loop
rebuild_loop-first zero bits nv offset r n h pos same = absurd (cc)
rebuild_loop-first (suc fuel) bits nv offset r n h pos same =
    elim (Bool-cases (ltb offset nv.data_len)) [
      | inr done ↦ let e : [] ≡ r = ok-injective (rw done at h) in ground arith
      | inl more ↦
          let (m, e, f) = >>=-eq-ok (load64 nv.buf (add64 offset bits)) _ (rw more at h) in
          let (rest, e') = rebuild_loop-prefix fuel bits nv _ (_ ∷ []) r f in ground arith
    ]

module _ ⦃fixed : Fixed64⦄ (options : Options) (t : FixedRangeTab) where
  -- An append with a filter of eight bytes and no room for the block writes beyond the end of the
  -- buffer: nothing guards it.
  pub append_block-overruns :
      (bloom body : Bytes)
      → length bloom ≡ 8
      → t.nv.buf.size < t.nv.data_len + 16 + length body
      → append_block options t bloom body ≡ fault out_of_bounds
  unfolding append_block store64 store
  append_block-overruns bloom body f full =
      let l = fixed.length-encode (length body) in
      rw (le→leb 8 (length bloom) (omega arith), take-all bloom 8 f) (ground arith)

  append_block-first :
      (bloom body : Bytes) (a : FixedRangeTab)
      → t.blklist ≡ []
      → t.nv.data_len ≡ 0
      → append_block options t bloom body ≡ ok a
      → a.blklist
        ≡ record { bloom_bits = options.chunk_bloom_bits; offset = 0; chunk_len = length body } ∷ []
  unfolding append_block
  append_block-first bloom body a fresh empty h = ground arith

  -- After the first append to a new table, whose length is 0, the block list that a restart
  -- rebuilds is never the one that the append left, if both return.
  pub rebuild-append-ne :
      (bloom body : Bytes) (a r : FixedRangeTab)
      → t.blklist ≡ []
      → t.nv.data_len ≡ 0
      → append_block options t bloom body ≡ ok a
      → rebuild_blk_list options (record a { blklist = [] }) ≡ ok r
      → r.blklist ≢ a.blklist
  unfolding rebuild_blk_list
  rebuild-append-ne bloom body a r fresh empty ha hr same =
      let first = append_block-first bloom body a fresh empty ha in
      let (bs, e, f) =
        >>=-eq-ok (rebuild_loop (a.nv.data_len + 1) options.chunk_bloom_bits a.nv (8 * 2) []) _
          hr in
      let e' : r.blklist ≡ bs = ground arith in
      rebuild_loop-first (a.nv.data_len + 1) options.chunk_bloom_bits a.nv 16 bs (length body) e
        (omega arith) (sym e' ∙ same ∙ first)

  -- `CleanUp` sets the length of the buffer to 0, and leaves the block list as it was.
  clean_up-keeps : clean_up options t ≡ ok (record t { nv = record t.nv { data_len = 0 } })
  unfolding clean_up rebuild_blk_list rebuild_loop
  clean_up-keeps = refl

  -- An append that returns changes neither the key range, nor the number of chunks, nor the sequence
  -- number of the table, whatever range the chunk has.
  pub append-key_range :
      (icmp : Comparator) (pool : Pool) (bloom body new_start new_end : Bytes) (r : FixedRangeTab)
      → append options icmp pool t bloom body new_start new_end ≡ ok r
      → (r.nv.key_range ≡ t.nv.key_range)
        × (r.nv.chunk_num ≡ t.nv.chunk_num)
        × (r.nv.seq_num ≡ t.nv.seq_num)
  unfolding append append_block
  append-key_range icmp pool bloom body new_start new_end r h = ground arith

  -- After SetExtraBuf, with an extra buffer of fewer than 2 ^ 64 - 8 bytes, the consistency check
  -- reads outside of the buffer.
  consistency_check-set_extra_buf :
      (at : ℕ) (extra : NvRangeTab)
      → extra.buf.size < 2 ^ 64 - 8
      → let r = set_extra_buf t at extra in consistency_check r.0 r.1 ≡ fault out_of_bounds
  unfolding consistency_check set_extra_buf load64 load
  consistency_check-set_extra_buf at extra small = ground arith

get_loop-ok_status :
    ⦃fixed : Fixed64⦄ (sizeof_p_buf : ℕ) (options : Options) (icmp : Comparator) (t : FixedRangeTab)
    (target : Bytes) (fuel i : ℕ) (out : Bytes) (r : Status × Bytes)
    → get_loop sizeof_p_buf options icmp t target fuel i out ≡ ok r
    → r.0 ≡ ok_status
unfolding get_loop
get_loop-ok_status sizeof_p_buf options icmp t target zero i out r h = absurd (cc)
get_loop-ok_status sizeof_p_buf options icmp t target (suc fuel) i out r h =
    let (blk, e₁, h₁) = >>=-eq-ok (of_option out_of_range (get_elem? t.blklist i)) _ h in
    let (bloom, e₂, h₂) = >>=-eq-ok (load t.nv.buf blk.offset options.chunk_bloom_bits) _ h₁ in
    elim (Bool-cases (options.key_may_match target bloom)) [
      | inr filtered ↦
          get_loop-ok_status sizeof_p_buf options icmp t target fuel (sub64 i 1) out r
            (rw filtered at h₂)
      | inl searched ↦
          let (iter, e₃, h₃) =
            >>=-eq-ok (open_chunk sizeof_p_buf t.nv.buf (get_dat_offset blk) blk.chunk_len) _
              (rw searched at h₂) in
          let (s, e₄, h₄) = >>=-eq-ok (search_in_chunk icmp t.nv.buf target iter out) _ h₃ in
          by_status s.status s.out r
            (get_loop-ok_status sizeof_p_buf options icmp t target fuel (sub64 i 1) s.out r) h₄
    ]

-- Whatever the range holds, if Get returns, its status is OK.
pub get-ok_status :
    ⦃fixed : Fixed64⦄ (sizeof_p_buf : ℕ) (options : Options) (icmp : Comparator) (t : FixedRangeTab)
    (target out : Bytes) (r : Status × Bytes)
    → get sizeof_p_buf options icmp t target out ≡ ok r
    → r.0 ≡ ok_status
get-ok_status sizeof_p_buf options icmp t target out r h =
    unfold get in get_loop-ok_status sizeof_p_buf options icmp t target _ _ out r h
