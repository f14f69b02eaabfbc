-- ===== src/Pstl.antt =====
-- persistent_hash_map.h and persistent_hash_map.cpp: the second hash map of the repository, of which
-- the source has the size of the table, the spreading of the hash and the nodes; `get` and `put` have
-- no result there. `>>>` is read as the shift that fills with zeros, which is what the 32 digits of
-- an `int` make of it. `MAXIMUM_CAPACITY` is not declared and a parameter.
pub mod TableSize
pub mod Spread
use Prim.Native.Nat.{bit_or, bit_xor}
use rocksdb_pmdk.Base.{
  ℕ, ◌+◌, ◌-◌, ◌*◌, ◌/◌, ◌%◌, ◌^◌, Bool, true, false, ◌&&◌, ◌||◌, Option, none, some, ltb, leb,
  ◌==◌, if◌then◌else◌,
}

-- `Cobj`: the interface of keys and values. Without an overriding method, two objects are equal if
-- they are one, which is their address.
pub record Cobj (K : Type 0) : Type 0 where
  pub hash_code : K → ℕ
  pub equals : K → K → Bool

-- `Node`; `next` is an address, 0 for none.
pub record Node (K V : Type 0) : Type 0 where
  pub hash_ : ℕ
  pub key : K
  pub value : V
  pub next : ℕ

module _ {K V : Type 0} where
  unfoldable pub new_node : ℕ → K → V → ℕ → Node K V
  new_node hash key value next = record { hash_ = hash; key = key; value = value; next = next }

  unfoldable pub get_key : Node K V → K
  get_key n = n.key

  unfoldable pub get_value : Node K V → V
  get_value n = n.value

  -- The old value, and the node with the new one.
  unfoldable pub set_value : Node K V → V → V × Node K V
  set_value n new_val = (n.value, record n { value = new_val })

  -- `same` says whether the two pointers are equal.
  unfoldable pub equals : Cobj K → Cobj V → (same : Bool) → Node K V → Node K V → Bool
  unfolding get_key get_value
  equals keys values same n o =
      if same then true else keys.equals n.key (get_key o) && values.equals n.value (get_value o)

  -- The method computes this value; it has no `return`.
  unfoldable pub node_hash_code : Cobj K → Cobj V → Node K V → ℕ
  node_hash_code keys values n = bit_xor (keys.hash_code n.key) (values.hash_code n.value)

-- `hash`: the upper half of the hash code over the lower half, 0 for a null pointer.
unfoldable pub hash : {K : Type 0} → Cobj K → Option K → ℕ
hash keys none = 0
hash keys (some key) = let h = keys.hash_code key in bit_xor h (h / 2 ^ 32)

-- `n |= n >>> k`
unfoldable pub smear : ℕ → ℕ → ℕ
smear k n = bit_or n (n / 2 ^ k)

-- `n` is a signed number of 32 digits: it is negative from 2 ^ 31 on.
unfoldable pub table_size_for : (maximum_capacity : ℕ) → ℕ → ℕ
table_size_for maximum_capacity cap =
    let n = smear 16 (smear 8 (smear 4 (smear 2 (smear 1 ((cap + 2 ^ 32 - 1) % 2 ^ 32))))) in
    if leb (2 ^ 31) n then 1 else if leb maximum_capacity n then maximum_capacity else n + 1

-- `DEFAULT_INITIAL_CAPACITY`; it is not used.
abbrev pub default_initial_capacity : ℕ
default_initial_capacity = 1 * 2 ^ 4

-- The fields that the constructor sets. `F` is the type `float`.
pub record PersistentHashMap (F : Type 0) : Type 0 where
  pub load_factor : F
  pub threshold : ℕ

unfoldable pub new_map : {F : Type 0} → (maximum_capacity : ℕ) → ℕ → F → PersistentHashMap F
new_map maximum_capacity initial_capacity load_factor = record {
  load_factor = load_factor;
  threshold = table_size_for maximum_capacity initial_capacity;
}
