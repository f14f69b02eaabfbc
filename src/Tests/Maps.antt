-- ===== src/Tests/Maps.antt =====
-- Hash maps: a table of two buckets.
use mathlib.Core.List.{flatten, Perm}
use rocksdb_pmdk.Base.{
  ◌≢◌, get_elem?, ◌⊎◌, ℕ, ◌≡◌, refl, ◌+◌, ◌==◌, if◌then◌else◌, true, none, some, [], ◌∷◌, Bytes, ok,
  Returns, arith,
}
use rocksdb_pmdk.HashMap.{PmemHashMap, put, get_all}
use rocksdb_pmdk.HashMap.Chains.{IsMap, Inserted, put-Inserted}
use rocksdb_pmdk.HashMap.Contents.{get_all-flatten, put_all, put_all-get_all}
use rocksdb_pmdk.HashMap.Heap.{Ptr, Store, nil, cons}
use rocksdb_pmdk.HashMap.Nodes.{put_content}
use rocksdb_pmdk.HashMap.Nodes.Drops.{put_content-cases}
use rocksdb_pmdk.NvRangeTab.{NvRangeTab}

abbrev empty_heap : {C : Type 0} → Store C
empty_heap p = none

abbrev two_buckets : PmemHashMap Unit
two_buckets = record { tab_len = 2; tab = 0 ∷ 0 ∷ []; load_factor = tt; threshold = 2; size = 0 }

abbrev code : ℕ → ℕ
code n = n

two_buckets-IsMap : IsMap code empty_heap two_buckets ([] ∷ [] ∷ [])
two_buckets-IsMap = record {
  width = refl;
  roomy = omega arith;
  chains = (nil, (nil, tt));
  placed = (tt, (tt, tt));
}

-- The content 7 at the address 1, in the second bucket.
abbrev one_node : Store ℕ
one_node p = if p == 1 then some (record { next = 0; p_content = 7 }) else none

abbrev one_entry : PmemHashMap Unit
one_entry = record { tab_len = 2; tab = 0 ∷ 1 ∷ []; load_factor = tt; threshold = 2; size = 0 }

one_entry-IsMap : IsMap code one_node one_entry ([] ∷ (7 ∷ []) ∷ [])
one_entry-IsMap = record {
  width = refl;
  roomy = omega arith;
  chains = (nil, (cons (λ e. ground arith) refl nil, tt));
  placed = (tt, ((refl, tt), tt));
}

put-Inserted_example :
    Returns
      (put code (some 2) one_node one_entry 9)
      (Inserted code one_node one_entry 9 ([] ∷ (7 ∷ []) ∷ []) 2)
put-Inserted_example =
    put-Inserted code one_node one_entry 9 ([] ∷ (7 ∷ []) ∷ []) 2 one_entry-IsMap
      (λ e. ground arith) refl

get_all-flatten_example : get_all 5 one_node one_entry (1 ∷ []) ≡ ok (1 ∷ 7 ∷ [])
unfolding flatten
get_all-flatten_example =
    get_all-flatten code one_node one_entry ([] ∷ (7 ∷ []) ∷ []) 5 (1 ∷ []) one_entry-IsMap
      (omega arith)

put_all-get_all_example : Returns (put_all code ((2, 4) ∷ (3, 9) ∷ []) one_node one_entry) λ r.
    Returns (get_all 5 r.0 r.1 []) (λ contents. Perm contents (4 ∷ 9 ∷ 7 ∷ [])) × (r.1.size ≡ 0)
unfolding flatten
put_all-get_all_example =
    put_all-get_all code ((2, 4) ∷ (3, 9) ∷ []) one_node one_entry ([] ∷ (7 ∷ []) ∷ []) 5
      one_entry-IsMap
      ((λ e. ground arith), refl, ((λ e. ground arith), tt), ((λ e. ground arith), refl, tt, tt))
      (omega arith)

-- A stand-in for the hash function.
abbrev sum_hash : Bytes → ℕ → ℕ → ℕ
sum_hash [] n seed = seed + n
sum_hash (x ∷ xs) n seed = x + sum_hash xs n seed

put_content-cases_example : Returns (put_content code (some 2) one_node one_entry 9) λ r.
    (r.0 ≡ true)
    × (((get_elem? one_entry.tab 1 ≡ some 0)
          × Inserted code one_node one_entry 9 ([] ∷ (7 ∷ []) ∷ []) 2 (r.1, r.2))
        ⊎ ((p : Ptr) × (get_elem? one_entry.tab 1 ≡ some p)
            × (p ≢ 0)
            × (r.1 ≡ one_node)
            × (r.2 ≡ one_entry)))
put_content-cases_example =
    put_content-cases code one_node one_entry 9 ([] ∷ (7 ∷ []) ∷ []) 2 one_entry-IsMap
      (λ e. ground arith) refl
