-- ===== src/Cache/Contents/Blank.antt =====
-- A new table, and the node that the search takes for the one of a prefix.
use rocksdb_pmdk.Base.{
  ℕ, ◌≤◌, ◌≡◌, refl, ◌∙◌, sym, true, Bool, [], ◌∷◌, ◌++◌, Bytes, ◌==◌, Returns, arith,
}
use rocksdb_pmdk.Cache.Contents.{HasText, IsText}
use rocksdb_pmdk.Cache.Ranges.{eq_bytes-eq}
use rocksdb_pmdk.HashMap.Nodes.{eq_bytes, c_text, strcmp_eq}
use rocksdb_pmdk.HashMap.Nodes.Lookup.{is_match, c_text-append_zero}
use rocksdb_pmdk.Memory.{Fixed64, read, store64, store-ok}
use rocksdb_pmdk.NvRangeTab.{NvRangeTab}
use rocksdb_pmdk.RangeTab.{new_range_tab}
use rocksdb_pmdk.RangeTab.State.{Options, FixedRangeTab}

-- A range over a new table: no blocks, and the table as it was but for two words in its buffer.
pub record IsBlank (nv : NvRangeTab) (t : FixedRangeTab) : Type 0 where
  pub blocks : t.blklist ≡ []
  pub cells : ℕ → ℕ
  pub table : t.nv ≡ record nv { buf = record nv.buf { cells = cells } }

pub new_range_tab-IsBlank :
    ⦃fixed : Fixed64⦄ (options : Options) (in_compaction : Bool) (nv : NvRangeTab)
    → nv.seq_num ≡ 0
    → 16 ≤ nv.buf.size
    → Returns (new_range_tab options nv in_compaction) (IsBlank nv)
unfolding new_range_tab store64
new_range_tab-IsBlank ⦃fixed = fixed⦄ options in_compaction nv zero room =
    let unnumbered : (nv.seq_num == 0) ≡ true = ground arith in
    let len = fixed.length-encode 0 in
    rw
      (
        unnumbered,
        store-ok nv.buf 0 (fixed.encode 0) (omega arith),
        store-ok (record nv.buf { cells = _ }) 8 (fixed.encode 0) (omega arith),
      )
      (_, refl, record { blocks = refl; cells = _; table = refl })

-- A node that the search takes for the one of a text is the one of that text.
pub is_match-eq :
    (hash : ℕ) (p q : Bytes) (nv : NvRangeTab)
    → IsText p
    → IsText q
    → HasText nv p
    → is_match hash q nv ≡ true
    → p ≡ q
is_match-eq hash p q nv text text' own hit =
    let same : strcmp_eq (read nv.prefix.cells 0 nv.prefix.size) q ≡ true = ground arith in
    let cut : eq_bytes (c_text (p ++ 0 ∷ [])) (c_text q) ≡ true = rw own at same in
    sym text
    ∙ sym (c_text-append_zero p)
    ∙ eq_bytes-eq (c_text (p ++ 0 ∷ [])) (c_text q) cut
    ∙ text'
