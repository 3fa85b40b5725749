-- ===== src/Prelude/Result.antt =====
-- The engine's errors, and results that may be one of them (errors.go).
use mathlib.Core.Path.{◌≡◌, refl}
use gess.Prelude.Strings.{Text}

pub data Reason : Type 0 where
  module_name_required duplicate_module option_nil bad_max_firings : Reason
  unknown_module : Text → Reason

pub data Error : Type 0 where
  closed_session invalid_ruleset concurrency_misuse canceled deadline_exceeded : Error
  unsupported_runtime : Error
  fact_not_found logical_support_unavailable action_failed : Error
  validation : Reason → Error

pub data Result {ℓ} (V : Type ℓ) : Type ℓ where
  err : Error → Result V
  ok : V → Result V

-- The early return of an error.
infixl 5 ◌>>=◌
abbrev pub ◌>>=◌ {ℓ κ} : {V : Type ℓ} {W : Type κ} → Result V → (V → Result W) → Result W
err failure >>= next = err failure
ok value >>= next = next value

-- A chain that succeeds has a first part that succeeds.
pub >>=-eq-ok {ℓ κ} :
    {V : Type ℓ} {W : Type κ} (first : Result V) (next : V → Result W) {w : W}
    → (first >>= next) ≡ ok w
    → (v : V) × (first ≡ ok v) × (next v ≡ ok w)
>>=-eq-ok (err failure) next h = cc
>>=-eq-ok (ok value) next h = (value, refl, h)
