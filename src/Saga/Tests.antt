-- ===== src/Saga/Tests.antt =====
-- The theorems on sagas, at sagas that runs reach.
use new_humans.Prelude.{String, ◌≡◌, false, Option, none, ok}
use new_humans.Saga.Types.{contract_settlement, compensation_pending, release_escrow, step_text}
use new_humans.Saga.Guards.{assert_saga_invariant, is_compensating}
use new_humans.Saga.Observe.{observe_financial_result}
use new_humans.Saga.Transitions.{
  FinancialCommand, PlanAction, build_financial_command, reconciliation_plan,
}
use new_humans.Saga.Reach.{
  observes, compensates, creates, SameIntent, Reachable-invariant, Reachable-Evidence,
  Step-SameIntent,
}
use new_humans.Saga.Sound.{Evidence}
use new_humans.Saga.Outcomes.{observe_idempotent, final_unchanged, settlement-not_compensated}
use new_humans.Saga.Keys.{operation_key_inj}
use new_humans.Saga.Commands.{IsCommandOf, IsPlanOf, Reachable-command, Reachable-plan}
use new_humans.Saga.Runs.{
  platform, pending, funded, active, refunding, success, settling, settlement_input,
  settlement_created, settlement_kind, pending-Reachable, refunding-Reachable, requested, observed,
  active_replays, release_key,
}

Reachable-invariant_example : assert_saga_invariant platform refunding ≡ ok tt
Reachable-invariant_example = Reachable-invariant platform refunding refunding-Reachable

Reachable-Evidence_example : Evidence compensation_pending platform refunding
Reachable-Evidence_example = Reachable-Evidence platform refunding refunding-Reachable

Step-SameIntent_example : SameIntent funded refunding
Step-SameIntent_example =
    Step-SameIntent platform funded refunding (compensates "cancelled" requested)

observe_idempotent_example : observe_financial_result platform funded success ≡ ok funded
observe_idempotent_example =
    observe_idempotent platform pending funded success pending-Reachable observed

final_unchanged_example : active ≡ active
final_unchanged_example =
    final_unchanged platform active active tt (observes success active_replays)

settlement-not_compensated_example :
    (is_compensating settling.state ≡ false) × (settling.compensation_operation_key ≡ none)
settlement-not_compensated_example =
    settlement-not_compensated platform settling
      (creates contract_settlement settlement_input settlement_created) settlement_kind

operation_key_inj_example :
    ◌≡◌ {A = String} "world/1" "world/1"
    × ◌≡◌ {A = String} "attempt-1" "attempt-1"
    × (step_text release_escrow ≡ step_text release_escrow)
operation_key_inj_example =
    operation_key_inj "world/1" "attempt-1" "world/1" "attempt-1" release_escrow release_escrow
      release_key release_key

Reachable-command_example :
    (o : Option FinancialCommand) × (build_financial_command platform refunding ≡ ok o)
    × IsCommandOf compensation_pending refunding o
Reachable-command_example = Reachable-command platform refunding refunding-Reachable

Reachable-plan_example :
    (a : PlanAction) × (k : Option String) × (reconciliation_plan platform refunding ≡ ok (a, k))
    × IsPlanOf compensation_pending refunding a k
Reachable-plan_example = Reachable-plan platform refunding refunding-Reachable
