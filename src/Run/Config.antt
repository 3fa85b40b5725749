-- ===== src/Run/Config.antt =====
-- The options of a run: `WithMaxFirings` and `newRunConfig`.
use gess.Prelude.{
  if◌then◌else◌, Bool, false, ◌≡◌, ap, ◌∙◌, Bool-cases, List, [], ◌∷◌, ℕ, Option, none, some, leb,
  ◌<◌, inl, inr, arith,
}
use gess.Prelude.Result.{Result, ok, err, validation, option_nil, bad_max_firings}

-- The fields `maxFirings` and `hasMaxFirings` are one option here, and the query proof is whether
-- there is one.
pub record RunConfig : Type 0 where
  pub max_firings : Option ℕ
  pub query_proof : Bool

-- A `RunOption`, which may be nil: `WithMaxFirings` with its argument, or with one below zero.
pub data RunOption : Type 0 where
  nil_option : RunOption
  with_max_firings : ℕ → RunOption
  with_negative_firings : RunOption

unfoldable pub apply_run_option : RunOption → RunConfig → Result RunConfig
apply_run_option nil_option config = err (validation option_nil)
apply_run_option (with_max_firings n) config =
    if leb n 0
    then err (validation bad_max_firings)
    else ok (record config { max_firings = some n })
apply_run_option with_negative_firings config = err (validation bad_max_firings)

unfoldable pub apply_run_options : List RunOption → RunConfig → Result RunConfig
apply_run_options [] config = ok config
apply_run_options (option ∷ options) config = elim (apply_run_option option config) [
  | err e ↦ err e
  | ok applied ↦ apply_run_options options applied
]

unfoldable pub new_run_config : List RunOption → Result RunConfig
new_run_config options =
    apply_run_options options (record { max_firings = none; query_proof = false })

-- A limit that a configuration has is positive.
abbrev pub Positive : RunConfig → Type 0
Positive config = (n : ℕ) → config.max_firings ≡ some n → 0 < n

abbrev limit_of : Result RunConfig → Option ℕ
limit_of (err e) = none
limit_of (ok config) = config.max_firings

apply_run_options-Positive :
    (options : List RunOption) (config applied : RunConfig)
    → Positive config
    → apply_run_options options config ≡ ok applied
    → Positive applied
unfolding apply_run_options apply_run_option
apply_run_options-Positive [] config applied low h n e = low n (ap (λ r. limit_of r) h ∙ e)
apply_run_options-Positive (nil_option ∷ options) config applied low h n e = ground (arith, h)
apply_run_options-Positive (with_max_firings m ∷ options) config applied low h n e =
    elim (Bool-cases (leb m 0)) [
      | inl zero ↦ ground (arith, h, zero)
      | inr above ↦
          apply_run_options-Positive options (record config { max_firings = some m }) applied
            (λ k eq. ground (arith, above, eq)) (rw (apply_run_options, above) at h) n e
    ]
apply_run_options-Positive (with_negative_firings ∷ options) config applied low h n e =
    ground (arith, h)

-- A run limit that the options give is positive.
pub new_run_config-Positive :
    (options : List RunOption) (config : RunConfig)
    → new_run_config options ≡ ok config
    → Positive config
unfolding new_run_config
new_run_config-Positive options config h =
    apply_run_options-Positive options (record { max_firings = none; query_proof = false }) config
      (λ n e. ground (arith, e)) h
