-- ===== src/Base/Results.antt =====
-- The outcome of a call: a value, a C++ exception, an access outside of a buffer, or the end of the
-- process. `out_of_fuel` is the model's own.
use mathlib.Core.Path.{◌≡◌, refl}
use mathlib.Core.Logic.{◌⊎◌, inl, inr, ◌≢◌}
use mathlib.Core.Option.{Option, none, some}
use mathlib.Core.Bool.{Bool, true, false}

-- `out_of_range` is thrown by `vector::at`; `out_of_bounds` is undefined behaviour, a load or store
-- outside of an allocated array; `null_pointer` is the use of a null pointer; `alloc_error` is
-- thrown by `make_persistent`; `assertion_failed` is a failed `assert`; `exited` is a call of `exit`.
pub data Fault : Type 0 where
  out_of_range out_of_bounds null_pointer alloc_error assertion_failed division_by_zero exited
        out_of_fuel :
      Fault

pub data Run {ℓ} (A : Type ℓ) : Type ℓ where
  ok : A → Run A
  fault : Fault → Run A

-- The run ends normally, in a value with the property.
abbrev pub Returns {ℓ κ} : {V : Type ℓ} → Run V → (V → Type κ) → Type (ℓ ⊔ κ)
Returns {V} run Good = (v : V) × (run ≡ ok v) × Good v

-- A missing value as a fault.
abbrev pub of_option {ℓ} : {V : Type ℓ} → Fault → Option V → Run V
of_option why (some v) = ok v
of_option why none = fault why

-- `assert`, and the tests that stand for undefined behaviour.
abbrev pub guard : Bool → Fault → Run (Unit {0})
guard holds why = elim holds [ false ↦ fault why | true ↦ ok tt ]

infixl 5 ◌>>=◌ ◌>>◌
abbrev pub ◌>>=◌ {ℓ κ} : {V : Type ℓ} {W : Type κ} → Run V → (V → Run W) → Run W
◌>>=◌ (fault why) next = fault why
◌>>=◌ (ok v) next = next v

abbrev pub ◌>>◌ {ℓ} : {W : Type ℓ} → Run (Unit {0}) → Run W → Run W
◌>>◌ first second = first >>= λ _. second

-- What a chain that ended normally went through.
pub >>=-eq-ok {ℓ κ} :
    {V : Type ℓ} {W : Type κ} (first : Run V) (next : V → Run W) {w : W}
    → first >>= next ≡ ok w
    → Returns first (λ v. next v ≡ ok w)
>>=-eq-ok (fault why) next run = cc
>>=-eq-ok (ok v) next run = (v, refl, run)

-- What stands behind a guard that let the run through.
pub after_guard {ℓ} :
    {V : Type ℓ} (b : Bool) (why : Fault) (rest : Run V) (v : V)
    → (guard b why >> rest) ≡ ok v
    → (b ≡ true) × (rest ≡ ok v)
after_guard true why rest v run = (refl, run)
after_guard false why rest v run = cc

pub Run-cases {ℓ} :
    {V : Type ℓ} (x : Run V) → ((v : V) × (x ≡ ok v)) ⊎ ((why : Fault) × (x ≡ fault why))
Run-cases (ok v) = inl (v, refl)
Run-cases (fault why) = inr (why, refl)

pub ok_inj {ℓ} : {V : Type ℓ} (v w : V) → ok v ≡ ok w → v ≡ w
ok_inj v w e = cc

pub ok_ne_fault {ℓ} : {V : Type ℓ} (v : V) (why : Fault) → ok v ≢ fault why
ok_ne_fault v why e = cc
