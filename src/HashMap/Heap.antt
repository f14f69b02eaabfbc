-- ===== src/HashMap/Heap.antt =====
-- The persistent heap: an address holds a node or is free; 0 is `nullptr`.
use rocksdb_pmdk.Base.{
  ℕ, suc, ◌≡◌, refl, ap, subst, sym, ◌∙◌, inl, inr, Bool-cases, ==_iff, length, ◌≢◌, Option, none,
  some, List, [], ◌∷◌, ◌==◌, if◌then◌else◌, Run, null_pointer, of_option, arith,
}
use mathlib.Core.Path.{fun_ext}

abbrev pub Ptr : Type 0
Ptr = ℕ

abbrev pub null : Ptr
null = 0

-- `Node2`.
pub record Node (C : Type 0) : Type 0 where
  pub next : Ptr
  pub p_content : C

abbrev pub Store : Type 0 → Type 0
Store C = Ptr → Option (Node C)

module _ {C : Type 0} where
  unfoldable pub update : Store C → Ptr → Node C → Store C
  update h p n = λ q. if q == p then some n else h q

  unfoldable pub deref : Store C → Ptr → Run (Node C)
  deref h p = of_option null_pointer (h p)

  -- From `p` the `next` pointers lead through nodes with the contents `xs` to the null pointer.
  pub data Seg (h : Store C) : Ptr → List C → Type 0 where
    nil : Seg h null []
    cons :
        {p q : Ptr} {c : C} {xs : List C}
        → p ≢ null
        → h p ≡ some (record { next = q; p_content = c })
        → Seg h q xs
        → Seg h p (c ∷ xs)

  -- Every node of `h` is in `g`, unchanged.
  abbrev pub Extends : Store C → Store C → Type 0
  Extends h g = (p : Ptr) (n : Node C) → h p ≡ some n → g p ≡ some n

  pub Seg-Extends : {h g : Store C} {p : Ptr} {xs : List C} → Extends h g → Seg h p xs → Seg g p xs
  Seg-Extends keep nil = nil
  Seg-Extends keep (cons ne e s) = cons ne (keep _ _ e) (Seg-Extends keep s)

  pub update-Extends : (h : Store C) (p : Ptr) (n : Node C) → h p ≡ none → Extends h (update h p n)
  unfolding update
  update-Extends h p n free q m e = ground arith

  pub update_self : (h : Store C) (p : Ptr) (n : Node C) → update h p n p ≡ some n
  unfolding update
  update_self h p n = ground arith

  pub update_other : (h : Store C) (p : Ptr) (n : Node C) (q : Ptr) → q ≢ p → update h p n q ≡ h q
  unfolding update
  update_other h p n q other = ground arith

  pub update_twice :
      (h : Store C) (p : Ptr) (n m : Node C) → update (update h p n) p m ≡ update h p m
  unfolding update
  update_twice h p n m = fun_ext (λ q. ground arith)

  -- A node that keeps its `next` keeps every chain.
  pub Seg-replace :
      {h : Store C} {p : Ptr} {xs : List C} (a : Ptr) (n : Node C) (c : C)
      → h a ≡ some n
      → Seg h p xs
      → (ys : List C) × Seg (update h a (record n { p_content = c })) p ys × (length ys ≡ length xs)
  Seg-replace a n c at nil = ([], nil, refl)
  Seg-replace {h} a n c at (cons {p} {q} {c = x} {xs = xs} ne e s) =
      let (ys, t, len) = Seg-replace a n c at s in
      let m : Node C = record n { p_content = c } in
      elim (Bool-cases (p == a)) [
        | inl here ↦
            let same : p ≡ a = (==_iff p a).0 here in
            let next : n.next ≡ q = cc in
            let e' : update h a m p ≡ some (record { next = q; p_content = c }) =
              rw (same, ← next) (update_self h a m) in
            (c ∷ ys, cons ne e' t, ap suc len)
        | inr other ↦
            let apart : p ≢ a = λ same. absurd (ground arith) in
            (x ∷ ys, cons ne (update_other h a m p apart ∙ e) t, ap suc len)
      ]

  -- The `next` pointers lead from `p` to the node at `a`.
  pub data OnChain (h : Store C) (a : Ptr) : Ptr → Type 0 where
    arrived : a ≢ null → OnChain h a a
    beyond : {p : Ptr} {n : Node C} → p ≢ null → h p ≡ some n → OnChain h a n.next → OnChain h a p

  pub OnChain-Extends : {h g : Store C} {a p : Ptr} → Extends h g → OnChain h a p → OnChain g a p
  OnChain-Extends keep (arrived ne) = arrived ne
  OnChain-Extends keep (beyond ne e s) = beyond ne (keep _ _ e) (OnChain-Extends keep s)

  pub OnChain-replace :
      {h : Store C} {a p : Ptr} (b : Ptr) (n : Node C) (c : C)
      → h b ≡ some n
      → OnChain h a p
      → OnChain (update h b (record n { p_content = c })) a p
  OnChain-replace b n c at (arrived ne) = arrived ne
  OnChain-replace {h} {a} b n c at (beyond {p} {n = x} ne e s) =
      let rest = OnChain-replace b n c at s in
      let m : Node C = record n { p_content = c } in
      elim (Bool-cases (p == b)) [
        | inl here ↦
            let same : p ≡ b = (==_iff p b).0 here in
            let next : n.next ≡ x.next = cc in
            let e' : update h b m p ≡ some m = rw same (update_self h b m) in
            beyond {n = m} ne e' (subst (λ q. OnChain (update h b m) a q) (sym next) rest)
        | inr other ↦
            let apart : p ≢ b = λ same. absurd (ground arith) in
            beyond ne (update_other h b m p apart ∙ e) rest
      ]
