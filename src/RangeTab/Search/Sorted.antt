-- ===== src/RangeTab/Search/Sorted.antt =====
-- The pairs of a chunk in key order, and the plain search that the binary search is measured by.
use Prim.Native.Nat.{Ordering}
use rocksdb_pmdk.Base.{
  ℕ, zero, suc, ◌<◌, ◌≡◌, refl, subst, ap, ◌∙◌, sym, ◌≢◌, Option, none, some, List, [], ◌∷◌, Bytes,
  length, get_elem?, All, arith,
}
use rocksdb_pmdk.Chunk.Format.{Pair}
use rocksdb_pmdk.Comparator.{Comparator}

module _ (icmp : Comparator) where
  -- The keys ascend strictly.
  abbrev pub IsSorted : List Pair → Type 0
  IsSorted [] = Unit
  IsSorted (p ∷ ps) = All (λ q. icmp.cmp p.0 q.0 ≡ Ordering.lt) ps × IsSorted ps

  -- The value of the first pair whose key the comparator finds equal.
  abbrev pub find_pair : Bytes → List Pair → Option Bytes
  find_pair target [] = none
  find_pair target (p ∷ ps) =
      let rest = find_pair target ps in
      elim (icmp.cmp p.0 target) [ Ordering.eq ↦ some p.1 | _ ↦ rest ]

  -- The first key is not above the target, and there is a first key.
  abbrev pub StartsBy : Bytes → List Pair → Type 0
  StartsBy target [] = ⊥
  StartsBy target (p ∷ ps) = icmp.cmp p.0 target ≢ Ordering.gt

module _ (icmp : Comparator) (target : Bytes) where
  pub StartsBy-length : (ps : List Pair) → StartsBy icmp target ps → 0 < length ps
  StartsBy-length [] h = absurd h
  StartsBy-length (p ∷ ps) h = omega arith

  -- A pair that is above the target has one before it.
  pub StartsBy-get_elem? :
      (ps : List Pair) (m : ℕ) (p : Pair)
      → StartsBy icmp target ps
      → get_elem? ps m ≡ some p
      → icmp.cmp p.0 target ≡ Ordering.gt
      → 0 < m
  StartsBy-get_elem? [] m p starts e h = absurd starts
  StartsBy-get_elem? (q ∷ ps) zero p starts e h =
      let same : p ≡ q = cc in absurd (starts (rw (← same) h))
  StartsBy-get_elem? (q ∷ ps) (suc m) p starts e h = omega arith

All-get_elem? :
    (P : Pair → Type 0) (ps : List Pair) (i : ℕ) (p : Pair)
    → All P ps
    → get_elem? ps i ≡ some p
    → P p
All-get_elem? P [] i p h e = cc
All-get_elem? P (q ∷ ps) zero p h e = subst P (cc) h.0
All-get_elem? P (q ∷ ps) (suc i) p h e = All-get_elem? P ps i p h.1 e

module _ (icmp : Comparator) where
  pub IsSorted-lt :
      (ps : List Pair) (i j : ℕ) (p q : Pair)
      → IsSorted icmp ps
      → i < j
      → get_elem? ps i ≡ some p
      → get_elem? ps j ≡ some q
      → icmp.cmp p.0 q.0 ≡ Ordering.lt
  IsSorted-lt [] i j p q s lt e f = cc
  IsSorted-lt (r ∷ ps) i zero p q s lt e f = absurd (omega arith)
  IsSorted-lt (r ∷ ps) zero (suc j) p q s lt e f =
      let r-eq-p : r ≡ p = cc in
      rw (← r-eq-p) (All-get_elem? (λ x. icmp.cmp r.0 x.0 ≡ Ordering.lt) ps j q s.0 f)
  IsSorted-lt (r ∷ ps) (suc i) (suc j) p q s lt e f = IsSorted-lt ps i j p q s.1 (omega arith) e f

  pub cmp-lt_eq :
      (a b c : Bytes)
      → icmp.cmp a b ≡ Ordering.lt
      → icmp.cmp b c ≡ Ordering.eq
      → icmp.cmp a c ≡ Ordering.lt
  cmp-lt_eq a b c h e = icmp.cmp_flip_gt c a (sym (icmp.cmp_eq_left b c a e) ∙ icmp.cmp_flip a b h)

  pub cmp-gt_lt :
      (a b c : Bytes)
      → icmp.cmp a c ≡ Ordering.gt
      → icmp.cmp a b ≡ Ordering.lt
      → icmp.cmp b c ≡ Ordering.gt
  cmp-gt_lt a b c h k = icmp.cmp_flip c b (icmp.cmp_trans c a b (icmp.cmp_flip_gt a c h) k)

  pub find_pair-none :
      (target : Bytes) (ps : List Pair)
      → ((i : ℕ) (p : Pair) → get_elem? ps i ≡ some p → icmp.cmp p.0 target ≢ Ordering.eq)
      → find_pair icmp target ps ≡ none
  find_pair-none target [] h = refl
  find_pair-none target (p ∷ ps) h =
      ground (arith, h 0 p refl, find_pair-none target ps (λ i q e. h (suc i) q e))

  pub find_pair-some :
      (target : Bytes) (ps : List Pair) (i : ℕ) (p : Pair)
      → get_elem? ps i ≡ some p
      → icmp.cmp p.0 target ≡ Ordering.eq
      → ((j : ℕ) (q : Pair) → j < i → get_elem? ps j ≡ some q → icmp.cmp q.0 target ≡ Ordering.lt)
      → find_pair icmp target ps ≡ some p.1
  find_pair-some target [] i p e same h = cc
  find_pair-some target (r ∷ ps) zero p e same h =
      let r-eq-p : r ≡ p = cc in
      let got : icmp.cmp r.0 target ≡ Ordering.eq = rw r-eq-p same in
      ground (arith, ap (λ (x : Pair). x.1) r-eq-p)
  find_pair-some target (r ∷ ps) (suc i) p e same h = ground (
    arith,
    h 0 r (omega arith) refl,
    find_pair-some target ps i p e same (λ j q lt f. h (suc j) q (omega arith) f),
  )
