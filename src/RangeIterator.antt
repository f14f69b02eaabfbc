-- ===== src/RangeIterator.antt =====
-- fixed_range_iterator.h: `FixRangeIterator`, a cursor over keys. `Key` and `Value` have empty bodies
-- and return nothing that is defined. `keys_` is not declared there.
use rocksdb_pmdk.Base.{ℕ, Bool, List, Bytes, length, ltb}
use rocksdb_pmdk.Base.Words.{add64, sub64}

pub record FixRangeIterator : Type 0 where
  pub keys : List Bytes
  pub current : ℕ

unfoldable pub next : FixRangeIterator → FixRangeIterator
next it = record it { current = add64 it.current 1 }

unfoldable pub prev : FixRangeIterator → FixRangeIterator
prev it = record it { current = sub64 it.current 1 }

unfoldable pub is_valid : FixRangeIterator → Bool
is_valid it = ltb it.current (length it.keys)
