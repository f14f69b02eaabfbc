-- ===== src/RangeTab/Search/Steps.antt =====
-- One round of the binary search, on each of its branches.
use Prim.Native.Nat.{Ordering}
use rocksdb_pmdk.Base.{
  ℕ, suc, ◌+◌, ◌-◌, ◌/◌, ◌<◌, ◌≤◌, ◌^◌, ◌≡◌, none, Bytes, get_elem?, ok, fault, out_of_range, arith,
  le→leb, leb-eq_false_of_lt,
}
use rocksdb_pmdk.Base.Words.{add64, sub64}
use rocksdb_pmdk.Chunk.Iterator.{PersistentChunkIterator, slice_at, key, value, seek_to}
use rocksdb_pmdk.Comparator.{Comparator}
use rocksdb_pmdk.Memory.{Buffer}
use rocksdb_pmdk.RangeTab.Search.{ok_status, not_found, search_loop}

-- Where the bounds have not wrapped, the middle is the mathematical one.
pub middle-eq :
    (lo right : ℕ)
    → lo ≤ right
    → right < 2 ^ 63
    → add64 lo (sub64 right lo / 2) ≡ lo + (right - lo) / 2
middle-eq lo right le small = omega arith

module _ (icmp : Comparator) (b : Buffer) (target : Bytes) (fuel : ℕ) (it : PersistentChunkIterator)
    (lo right : ℕ) (out : Bytes) where
  pub search_loop-over :
      right < lo
      → search_loop icmp b target (suc fuel) it lo right out
        ≡ ok (record { status = not_found; out = out; iter = it })
  unfolding search_loop
  search_loop-over over = rw (leb-eq_false_of_lt lo right over)

  module _ (m : ℕ) (inside : lo ≤ right) (mid : add64 lo (sub64 right lo / 2) ≡ m) where
    pub search_loop-throws :
        get_elem? it.v_key m ≡ none
        → search_loop icmp b target (suc fuel) it lo right out ≡ fault out_of_range
    unfolding search_loop key seek_to slice_at
    search_loop-throws e = rw (le→leb lo right inside, mid, e)

    module _ (k : Bytes) (read : slice_at b it.v_key m ≡ ok k) where
      pub search_loop-eq :
          (v : Bytes)
          → slice_at b it.v_value m ≡ ok v
          → icmp.cmp k target ≡ Ordering.eq
          → search_loop icmp b target (suc fuel) it lo right out
            ≡ ok (record { status = ok_status; out = v; iter = seek_to it m })
      unfolding search_loop key value seek_to
      search_loop-eq v e h = rw (le→leb lo right inside, mid, read, h, mid, e)

      pub search_loop-lt :
          icmp.cmp k target ≡ Ordering.lt
          → search_loop icmp b target (suc fuel) it lo right out
            ≡ search_loop icmp b target fuel (seek_to it m) (add64 m 1) right out
      unfolding search_loop key value seek_to
      search_loop-lt h = rw (le→leb lo right inside, mid, read, h, mid)

      pub search_loop-gt :
          icmp.cmp k target ≡ Ordering.gt
          → search_loop icmp b target (suc fuel) it lo right out
            ≡ search_loop icmp b target fuel (seek_to it m) lo (sub64 m 1) out
      unfolding search_loop key value seek_to
      search_loop-gt h = rw (le→leb lo right inside, mid, read, h, mid)
