-- ===== src/Chunk/Walk.antt =====
-- Walks through a chunk with the methods of its iterator, the way a client makes them.
use rocksdb_pmdk.Base.{
  ℕ, zero, suc, ◌+◌, ◌*◌, ◌<◌, ◌≤◌, ◌^◌, ◌≡◌, refl, ◌∙◌, inl, inr, Bool-cases, ltb, ltb→lt, some,
  ◌-◌, ◌++◌, subst, List, [], ◌∷◌, Bytes, length, length-append, get_elem?, get_elem?-lt, drop,
  drop-get_elem, drop-all, if◌then◌else◌, lt→ltb, ltb-eq_false_of_le, Run, ok, fault, out_of_fuel,
  ◌>>=◌, Returns, arith,
}
use rocksdb_pmdk.Base.Words.{add64, sub64}
use rocksdb_pmdk.Chunk.Format.{Pair, Views, pairs_bytes, offsets_bytes, chunk_bytes}
use rocksdb_pmdk.Chunk.Iterator.{
  PersistentChunkIterator, open_chunk, key, value, next, prev, is_valid, seek_to_first,
  seek_to_last,
}
use rocksdb_pmdk.Chunk.Open.{length-offsets_bytes, open_chunk-Views}
use rocksdb_pmdk.Chunk.Views.{Views-length, Views-slice_at}
use rocksdb_pmdk.Memory.{Buffer, Fixed64, Holds}

module _ (b : Buffer) where
  abbrev pub pair_here : PersistentChunkIterator → Run Pair
  pair_here it = do k ← key b it; v ← value b it; ok (k, v)

  -- The pairs from the place of the iterator on, with `Next` while it is `Valid`.
  unfoldable pub walk : ℕ → PersistentChunkIterator → Run (List Pair)
  walk zero it = fault out_of_fuel
  walk (suc fuel) it =
      let round : Run (List Pair) =
        pair_here it >>= λ p. next it >>= λ it'. walk fuel it' >>= λ rest. ok (p ∷ rest) in
      if is_valid it then round else ok []

  -- The pairs from the place of the iterator down, with `Prev` while it is `Valid`, each in front of
  -- those that were read before it.
  unfoldable pub walk_back : ℕ → PersistentChunkIterator → List Pair → Run (List Pair)
  walk_back zero it ps = fault out_of_fuel
  walk_back (suc fuel) it ps =
      let round : Run (List Pair) =
        pair_here it >>= λ p. prev it >>= λ it'. walk_back fuel it' (p ∷ ps) in
      if is_valid it then round else ok ps

  module _ (it : PersistentChunkIterator) (ps : List Pair) (views : Views b it.v_key it.v_value ps)
      (small : length ps < 2 ^ 64) where
    abbrev at : ℕ → PersistentChunkIterator
    at i = record it { current = i }

    pair_here-at : (i : ℕ) (p : Pair) → get_elem? ps i ≡ some p → pair_here (at i) ≡ ok p
    unfolding key value
    pair_here-at i p e =
        let (k, v) = Views-slice_at b it.v_key it.v_value ps i p views e in rw (k, v) refl

    walk-drop :
        (fuel i : ℕ) → i ≤ length ps → length ps < i + fuel → walk fuel (at i) ≡ ok (drop i ps)
    unfolding walk next is_valid
    walk-drop zero i le enough = absurd (omega arith)
    walk-drop (suc fuel) i le enough =
        let len = Views-length b it.v_key it.v_value ps views in
        elim (Bool-cases (ltb i (length ps))) [
          | inl under ↦
              let lt = ltb→lt i (length ps) under in
              let (p, e) = get_elem?-lt ps i lt in
              let inside = lt→ltb i (length it.v_key) (omega (arith, len)) in
              let step : add64 i 1 ≡ suc i = omega arith in
              rw
                (
                  inside,
                  pair_here-at i p e,
                  step,
                  walk-drop fuel (suc i) (omega arith) (omega arith),
                  drop-get_elem ps i e,
                )
                refl
          | inr over ↦
              let ge : length ps ≤ i = ground arith in
              let outside = ltb-eq_false_of_le i (length it.v_key) (omega (arith, len)) in
              rw (outside, drop-all ps i ge) refl
        ]

    pub walk-first : (fuel : ℕ) → length ps < fuel → walk fuel (seek_to_first it) ≡ ok ps
    unfolding seek_to_first
    walk-first fuel enough = walk-drop fuel 0 (omega arith) (omega arith)

    -- In front of the first pair `current_` wraps to its greatest value.
    walk_back-outside : (fuel : ℕ) → walk_back (suc fuel) (at (2 ^ 64 - 1)) ps ≡ ok ps
    unfolding walk_back is_valid
    walk_back-outside fuel =
        let len = Views-length b it.v_key it.v_value ps views in
        rw (ltb-eq_false_of_le (2 ^ 64 - 1) (length it.v_key) (omega (arith, len))) refl

    walk_back-step :
        (fuel j : ℕ) (p : Pair) (acc : List Pair)
        → get_elem? ps j ≡ some p
        → j < length ps
        → walk_back (suc fuel) (at j) acc ≡ walk_back fuel (at (sub64 j 1)) (p ∷ acc)
    unfolding walk_back prev is_valid
    walk_back-step fuel j p acc e lt =
        let len = Views-length b it.v_key it.v_value ps views in
        rw (lt→ltb j (length it.v_key) (omega (arith, len)), pair_here-at j p e) refl

    walk_back-drop :
        (fuel j : ℕ)
        → j < length ps
        → suc j < fuel
        → walk_back fuel (at j) (drop (suc j) ps) ≡ ok ps
    walk_back-drop zero j lt enough = absurd (omega arith)
    walk_back-drop (suc zero) j lt enough = absurd (omega arith)
    walk_back-drop (suc (suc fuel)) zero lt enough =
        let (p, e) = get_elem?-lt ps 0 lt in
        let whole = drop-get_elem ps 0 e in
        walk_back-step (suc fuel) 0 p (drop 1 ps) e lt ∙ rw (← whole) (walk_back-outside fuel)
    walk_back-drop (suc (suc fuel)) (suc j) lt enough =
        let (p, e) = get_elem?-lt ps (suc j) lt in
        let whole = drop-get_elem ps (suc j) e in
        let down : sub64 (suc j) 1 ≡ j = omega arith in
        walk_back-step (suc fuel) (suc j) p (drop (suc (suc j)) ps) e lt
        ∙ rw (down, ← whole) (walk_back-drop (suc fuel) j (omega arith) (omega arith))

    pub walk_back-last : (fuel : ℕ) → length ps < fuel → walk_back fuel (seek_to_last it) [] ≡ ok ps
    unfolding seek_to_last
    walk_back-last zero enough = absurd (omega arith)
    walk_back-last (suc fuel) enough =
        let len = Views-length b it.v_key it.v_value ps views in
        elim (Bool-cases (ltb 0 (length ps))) [
          | inl under ↦
              let lt = ltb→lt 0 (length ps) under in
              let j = length ps - 1 in
              let last : sub64 (length it.v_key) 1 ≡ j = omega (arith, len) in
              let run = walk_back-drop (suc fuel) j (omega arith) (omega arith) in
              let empty = drop-all ps (suc j) (omega arith) in
              rw last (subst (λ acc. walk_back (suc fuel) (at j) acc ≡ ok ps) empty run)
          | inr over ↦
              let none_left : length ps ≤ 0 = ground arith in
              let wrapped : sub64 (length it.v_key) 1 ≡ 2 ^ 64 - 1 = omega (arith, len) in
              let empty = drop-all ps 0 none_left in
              rw wrapped (
                subst (λ acc. walk_back (suc fuel) (at (2 ^ 64 - 1)) acc ≡ ok ps) empty
                  (walk_back-outside fuel))
        ]

module _ ⦃fixed : Fixed64⦄ (b : Buffer) (small : b.size < 2 ^ 64) where
  -- On the bytes of a chunk with a gap of `(sizeof_p_buf - 8) * n` bytes before the number `n` of
  -- pairs, in a buffer of fewer than 2 ^ 64 bytes, the constructor returns. With more fuel than there
  -- are pairs, a walk from `SeekToFirst` with `Next` while `Valid` then reads exactly the pairs, in
  -- order, and a walk from `SeekToLast` with `Prev` while `Valid` reads them from the last one down.
  pub open_chunk-walks :
      (start sizeof_p_buf fuel : ℕ) (ps : List Pair) (gap : Bytes)
      → 8 * length ps + length gap ≡ sizeof_p_buf * length ps
      → Holds b.cells start (chunk_bytes ps gap)
      → start + length (chunk_bytes ps gap) ≤ b.size
      → length ps < fuel
      → Returns (open_chunk sizeof_p_buf b start (length (chunk_bytes ps gap))) λ it.
        (walk b fuel (seek_to_first it) ≡ ok ps) × (walk_back b fuel (seek_to_last it) [] ≡ ok ps)
  open_chunk-walks start sizeof_p_buf fuel ps gap width h room enough =
      let len₁ =
        length-append (pairs_bytes ps) (offsets_bytes 0 ps ++ (gap ++ fixed.encode (length ps))) in
      let len₂ = length-append (offsets_bytes 0 ps) (gap ++ fixed.encode (length ps)) in
      let len₃ = length-offsets_bytes 0 ps in
      let few : length ps < 2 ^ 64 = omega arith in
      let (it, run, views) = open_chunk-Views b small start sizeof_p_buf ps gap width h room in
      (
        it,
        run,
        (walk-first b it ps views few fuel enough, walk_back-last b it ps views few fuel enough),
      )
