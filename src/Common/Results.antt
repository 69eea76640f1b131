-- ===== src/Common/Results.antt =====
-- A transaction either goes through with a value, or is aborted by a failed check: the chain then
-- undoes every write of it, so an abort carries its message and no state.
use Prim.Native.String.{String}
use mathlib.Core.Path.{◌≡◌, refl}
use mathlib.Core.Logic.{◌⊎◌, inl, inr}
use mathlib.Core.Bool.{Bool, true, false}
use mathlib.Core.Option.{Option, none, some}

pub data Result {ℓ} (A : Type ℓ) : Type ℓ where
  err : String → Result A
  ok : A → Result A

module _ {κ} {B : Type κ} where
  infixl 5 ◌>>=◌ ◌>>◌
  abbrev pub ◌>>=◌ {ℓ} : {A : Type ℓ} → Result A → (A → Result B) → Result B
  err message >>= rest = err message
  ok value >>= rest = rest value

  -- `eosio::check` hands nothing on to what follows it.
  abbrev pub ◌>>◌ : Result (Unit {0}) → Result B → Result B
  err message >> rest = err message
  ok _ >> rest = rest

abbrev pub check : Bool → String → Result (Unit {0})
check false message = err message
check true message = ok tt

-- A lookup that aborts with a message, such as `multi_index::get`.
abbrev pub or_err {ℓ} : {A : Type ℓ} → Option A → String → Result A
or_err (some row) message = ok row
or_err none message = err message

pub Result-cases {ℓ} :
    {A : Type ℓ} (r : Result A) → ((a : A) × (r ≡ ok a)) ⊎ ((e : String) × (r ≡ err e))
Result-cases (err e) = inr (e, refl)
Result-cases (ok a) = inl (a, refl)

-- To go on with the value of a step that did not abort, or of a lookup that found its key.
pub with_ok {ℓ κ} :
    {A : Type ℓ} {G : Type κ} (r : Result A)
    → ((e : String) → r ≡ err e → ⊥)
    → ((a : A) → r ≡ ok a → G)
    → G
with_ok (err e) fails rest = absurd (fails e refl)
with_ok (ok a) fails rest = rest a refl

pub with_some {ℓ κ} :
    {A : Type ℓ} {G : Type κ} (o : Option A) → (o ≡ none → ⊥) → ((a : A) → o ≡ some a → G) → G
with_some none fails rest = absurd (fails refl)
with_some (some a) fails rest = rest a refl
