-- ===== src/Cache/Contents/Steps.antt =====
-- What an append to one table needs and leaves: memory, its text, and room.
use rocksdb_pmdk.Base.{
  ℕ, ◌+◌, ◌*◌, ◌≡◌, refl, ◌∙◌, sym, true, false, Bool, Bool-cases, inl, inr, Option, none, some,
  List, [], ◌∷◌, ◌++◌, Bytes, length, if◌then◌else◌, ◌||◌, ok, Ordering, arith,
}
use rocksdb_pmdk.Cache.Contents.{IsNumberless, Model, put, HasText}
use rocksdb_pmdk.Chunk.Format.{chunk_bytes}
use rocksdb_pmdk.Comparator.{Comparator}
use rocksdb_pmdk.HashMap.Nodes.{eq_bytes}
use rocksdb_pmdk.Memory.{Buffer, Fixed64}
use rocksdb_pmdk.NvRangeTab.{NvRangeTab, Pool}
use rocksdb_pmdk.NvRangeTab.KeyRange.{encode_range, encode_room, get_real_range}
use rocksdb_pmdk.RangeTab.{append_block, check_and_update_key_range}
use rocksdb_pmdk.RangeTab.Get.Rounds.{Chunk}
use rocksdb_pmdk.RangeTab.Refine.{room}
use rocksdb_pmdk.RangeTab.State.{Options, FixedRangeTab}

-- The pool does not run out of memory.
abbrev pub IsAmple : Pool → Type 0
IsAmple pool = (n : ℕ) → (b : Buffer) × (pool.allocate n ≡ some b)

-- A text is that of one prefix only.
last_inj : (xs ys : Bytes) → xs ++ 0 ∷ [] ≡ ys ++ 0 ∷ [] → xs ≡ ys
last_inj [] [] e = refl
last_inj (x ∷ xs) (y ∷ ys) e =
    let head : x ≡ y = cc in
    let tail : xs ++ 0 ∷ [] ≡ ys ++ 0 ∷ [] = cc in let rest = last_inj xs ys tail in cc
last_inj [] (y ∷ []) e = absurd (cc)
last_inj [] (y ∷ z ∷ ys) e = absurd (cc)
last_inj (x ∷ []) [] e = absurd (cc)
last_inj (x ∷ z ∷ xs) [] e = absurd (cc)

pub HasText-inj : (nv : NvRangeTab) (p q : Bytes) → HasText nv p → HasText nv q → p ≡ q
HasText-inj nv p q h k = last_inj p q (sym h ∙ k)

module _ ⦃fixed : Fixed64⦄ where
  pub room-last :
      (cs : List Chunk) (k : Chunk)
      → room (cs ++ k ∷ []) ≡ room cs + 16 + length (chunk_bytes k.pairs k.gap)
  room-last [] k = omega arith
  room-last (c ∷ cs) k = omega (arith, room-last cs k)

  encode_range-Returns :
      (pool : Pool) (start end : Bytes)
      → IsAmple pool
      → (b : Buffer) × (encode_range pool start end ≡ ok b)
  encode_range-Returns pool start end ample =
      let (b, got) = ample (length start + length end + 2 * 8) in
      let size = pool.allocate-size _ b got in
      (_, encode_room pool start end b got (omega (arith, size)))

  -- Without a key range the update allocates at most one array.
  pub check-Returns :
      (icmp : Comparator) (pool : Pool) (nv : NvRangeTab) (start end : Bytes)
      → IsAmple pool
      → nv.key_range ≡ none
      → (o : Option Buffer) × (check_and_update_key_range icmp pool nv start end ≡ ok o)
  unfolding check_and_update_key_range get_real_range
  check-Returns icmp pool nv start end ample e =
      let up_start : Bool = elim (icmp.cmp [] start) [ Ordering.gt ↦ true | _ ↦ false ] in
      let up_end : Bool = elim (icmp.cmp [] end) [ Ordering.lt ↦ true | _ ↦ false ] in
      let (b, run) =
        encode_range-Returns pool (if up_start then start else []) (if up_end then end else [])
          ample in
      elim (Bool-cases (up_start || up_end)) [
        | inl moved ↦ (some b, rw (e, moved, run) refl)
        | inr still ↦ (none, rw (e, still) refl)
      ]

  pub append_block-prefix :
      (options : Options) (t r : FixedRangeTab) (bloom body : Bytes)
      → append_block options t bloom body ≡ ok r
      → (r.nv.prefix ≡ t.nv.prefix)
        × (r.nv.key_range ≡ t.nv.key_range)
        × (r.nv.seq_num ≡ t.nv.seq_num)
        × (r.nv.prefix_len ≡ t.nv.prefix_len)
  unfolding append_block
  append_block-prefix options t r bloom body h = ground arith

pub some_inj : {A : Type 0} {x y : A} → some x ≡ some y → x ≡ y
some_inj e = cc

pub put-some :
    (prefix : Bytes) (cs : List Chunk) (m : Model) (p : Bytes) (ds : List Chunk)
    → m p ≡ some ds
    → (es : List Chunk) × (put prefix cs m p ≡ some es)
put-some prefix cs m p ds e = elim (Bool-cases (eq_bytes p prefix)) [
  | inl same ↦ (cs, rw same refl)
  | inr other ↦ (ds, rw other e)
]

pub IsNumberless-same :
    (nv nv' : NvRangeTab)
    → nv'.seq_num ≡ nv.seq_num
    → nv'.prefix ≡ nv.prefix
    → nv'.prefix_len ≡ nv.prefix_len
    → nv'.buf.size ≡ nv.buf.size
    → IsNumberless nv
    → IsNumberless nv'
IsNumberless-same nv nv' number text len size v = record {
  number = number ∙ v.number;
  loads = λ p own. rw (text, len) (v.loads p (rw text at own));
  roomy = omega (arith, v.roomy, size);
}
