-- ===== src/Tests/Bits.antt =====
-- The table sizes and hashes of the second hash map.
use rocksdb_pmdk.Base.{ℕ, ◌+◌, ◌≡◌, ◌↔◌, ◌≤◌, ◌^◌, refl, ◌==◌, some, arith}
use rocksdb_pmdk.Pstl.{Cobj, hash, smear, table_size_for}
use rocksdb_pmdk.Pstl.Spread.{hash-eq_iff}
use rocksdb_pmdk.Pstl.TableSize.{table_size_for-least}

table_size_for_hundred : table_size_for (2 ^ 30) 100 ≡ 128
unfolding table_size_for smear
table_size_for_hundred = refl

table_size_for-least_example :
    (k : ℕ) × (table_size_for (2 ^ 30) 100 ≡ 2 ^ k)
    × (100 ≤ 2 ^ k)
    × ((i : ℕ) → 100 ≤ 2 ^ i → 2 ^ k ≤ 2 ^ i)
table_size_for-least_example = table_size_for-least 30 100 (omega arith) (omega arith)

-- Numbers that are their own hash codes.
abbrev numbers : Cobj ℕ
numbers = record { hash_code = λ n. n; equals = λ a b. a == b }

hash-eq_iff_example :
    (hash numbers (some (2 ^ 40 + 3)) ≡ hash numbers (some 259)) ↔ (◌≡◌ {A = ℕ} (2 ^ 40 + 3) 259)
hash-eq_iff_example = hash-eq_iff numbers (2 ^ 40 + 3) 259 (omega arith) (omega arith)
