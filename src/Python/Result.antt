-- ===== src/Python/Result.antt =====
-- Exceptions as values, and code that raises, or that raises and changes a state.
use esphome_rf_cloner.Base.{ℕ, ℤ, String, Bool, true, false, List, [], ◌∷◌}

-- Why `check_restore_target` refuses a bridge.
pub data Refusal : Type 0 where
  read_only : String → Refusal
  unfinished : Refusal
  occupied : ℤ → Refusal
  too_few_slots : ℤ → ℕ → Refusal
  oversized : ℤ → List String → Refusal
  bad_revision : ℤ → Refusal

-- The integration's own `HomeAssistantError`s, and those that a called action raises.
pub data Failure : Type 0 where
  not_a_mapping outside_domain : Failure
  wrong_identity : String → String → Failure
  not_committed : Failure
  wrote : ℤ → ℕ → Failure
  not_advanced : ℤ → ℤ → Failure
  external : String → Failure

pub data Exception : Type 0 where
  key_error type_error value_error attribute_error assertion_error : Exception
  service_not_found bridge_unavailable : Exception
  restore_not_possible : Refusal → Exception
  home_assistant_error : Failure → Exception
  update_failed : Exception → Exception
  service_validation_error : String → Exception
  config_entry_error : String → Exception
  config_entry_not_ready : Exception → Exception
  -- Any exception that is none of the above.
  other : String → Exception

-- `except HomeAssistantError`, by the class hierarchy.
unfoldable pub is_home_assistant_error : Exception → Bool
is_home_assistant_error key_error = false
is_home_assistant_error type_error = false
is_home_assistant_error value_error = false
is_home_assistant_error attribute_error = false
is_home_assistant_error assertion_error = false
is_home_assistant_error (other _) = false
is_home_assistant_error _ = true

pub data Result {ℓ} (A : Type ℓ) : Type ℓ where
  ok : A → Result A
  err : Exception → Result A

-- What a raise skips.
infixl 5 ◌>>=◌
abbrev pub ◌>>=◌ {ℓ κ} : {A : Type ℓ} {B : Type κ} → Result A → (A → Result B) → Result B
err raised >>= rest = err raised
ok value >>= rest = rest value

-- `[f(x) for x in xs]` for an `f` that may raise.
unfoldable pub collect {ℓ κ} : {A : Type ℓ} {B : Type κ} → (A → Result B) → List A → Result (List B)
collect f [] = ok []
collect f (x ∷ xs) = do y ← f x; ys ← collect f xs; ok (y ∷ ys)

-- `try: … except HomeAssistantError as err: handler(err)`
unfoldable pub catch_home_assistant {ℓ} :
    {A : Type ℓ} → Result A → (Exception → Result A) → Result A
unfolding is_home_assistant_error
catch_home_assistant (ok a) handler = ok a
catch_home_assistant (err e) handler = elim (is_home_assistant_error e) [
  | true ↦ handler e
  | false ↦ err e
]
