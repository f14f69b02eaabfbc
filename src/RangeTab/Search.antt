-- ===== src/RangeTab/Search.antt =====
-- `FixedRangeTab::searchInChunk` of fixed_range_tab.cc: the binary search in one chunk. `left` and
-- `right` are `size_t`, so `count() - 1` and `middle - 1` wrap.
pub mod Sorted
pub mod Steps
pub mod Found
pub mod Fails
use Prim.Native.Nat.{Ordering}
use rocksdb_pmdk.Base.{
  ℕ, zero, suc, ◌+◌, ◌/◌, Bytes, leb, if◌then◌else◌, Run, ok, fault, out_of_fuel, ◌>>=◌,
}
use rocksdb_pmdk.Base.Words.{add64, sub64}
use rocksdb_pmdk.Chunk.Iterator.{PersistentChunkIterator, key, value, count, seek_to}
use rocksdb_pmdk.Comparator.{Comparator}
use rocksdb_pmdk.Memory.{Buffer}

-- `Status::OK()` and `Status::NotFound(...)`.
pub data Status : Type 0 where
  ok_status not_found : Status

-- What a search returns, with the string behind `value` and the iterator as they are left.
pub record Searched : Type 0 where
  pub status : Status
  pub out : Bytes
  pub iter : PersistentChunkIterator

module _ (icmp : Comparator) (b : Buffer) (target : Bytes) where
  unfoldable pub search_loop : ℕ → PersistentChunkIterator → ℕ → ℕ → Bytes → Run Searched
  search_loop zero iter left right out = fault out_of_fuel
  search_loop (suc fuel) iter left right out =
      let middle = add64 left (sub64 right left / 2) in
      let at = seek_to iter middle in
      let above = search_loop fuel at (add64 middle 1) right out in
      let below = search_loop fuel at left (sub64 middle 1) out in
      if leb left right
      then (key b at >>= λ ml_key. elim (icmp.cmp ml_key target) [
        | Ordering.eq ↦ value b at >>= λ raw_value.
            ok (record { status = ok_status; out = raw_value; iter = at })
        | Ordering.lt ↦ above
        | Ordering.gt ↦ below
      ])
      else ok (record { status = not_found; out = out; iter = iter })

  -- Two rounds more than there are pairs are enough.
  unfoldable pub search_in_chunk : PersistentChunkIterator → Bytes → Run Searched
  search_in_chunk iter out = search_loop (count iter + 2) iter 0 (sub64 (count iter) 1) out
