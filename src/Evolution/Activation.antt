-- ===== src/Evolution/Activation.antt =====
-- domain/evolution.py: `StrategyActivation`, the evidence that a strategy became authoritative.
use evolvable_user_memory.Base.{
  ◌≡◌, ◌↔◌, Bool, true, false, ◌||◌, ◌==◌, Eq, nat_eq, option_eq, arith, Option, none, some, ℕ,
}
use evolvable_user_memory.Base.Result.{Result, ok, domain_error, ◌>>=◌, ◌>>◌, raise_if}
use evolvable_user_memory.Base.Text.{Text}
use evolvable_user_memory.Common.{Uuid, Instant, require_text}

pub data StrategyActivationKind : Type 0 where
  bootstrap promotion rollback : StrategyActivationKind

abbrev pub kind_code : StrategyActivationKind → ℕ
kind_code bootstrap = 0
kind_code promotion = 1
kind_code rollback = 2

abbrev pub kind_beq : StrategyActivationKind → StrategyActivationKind → Bool
kind_beq a b = kind_code a == kind_code b

pub kind_beq_iff : (a b : StrategyActivationKind) → (kind_beq a b ≡ true) ↔ (a ≡ b)
kind_beq_iff a b = (λ h. ground arith, λ h. ground arith)

instance abbrev pub kind_eq : Eq StrategyActivationKind
kind_eq = record { beq = kind_beq; beq_iff = kind_beq_iff }

pub record StrategyActivation : Type 0 where
  pub id : Uuid
  pub strategy_id : Uuid
  pub kind : StrategyActivationKind
  pub activated_at : Instant
  pub reason : Text
  pub previous_strategy_id : Option Uuid
  pub experiment_id : Option Uuid

abbrev pub is_none : Option Uuid → Bool
is_none none = true
is_none (some _) = false

abbrev not_none : Option Uuid → Bool
not_none o = elim o [ none ↦ false | some _ ↦ true ]

abbrev pub check_references : StrategyActivationKind → Option Uuid → Option Uuid → Result (Unit {0})
check_references bootstrap previous experiment =
    raise_if (not_none previous || not_none experiment)
      (domain_error "bootstrap activation cannot reference prior strategy or experiment")
check_references _ previous experiment =
    raise_if (is_none previous || is_none experiment)
      (domain_error "promotion and rollback require prior strategy and experiment")

unfoldable pub make_activation : StrategyActivation → Result StrategyActivation
make_activation a = do
  reason ← require_text a.reason
  raise_if (a.previous_strategy_id == some a.strategy_id)
      (domain_error "strategy activation must change the active strategy")
  check_references a.kind a.previous_strategy_id a.experiment_id
  ok (record a { reason = reason })
