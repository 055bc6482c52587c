-- ===== src/Idempotency/Retry.antt =====
-- The decision that follows an attempt.
use new_humans.Prelude.{
  Bool, true, false, not, ◌&&◌, ◌==◌, if◌then◌else◌, Option, none, some, Result, ok, fail_if, ◌>>=◌,
  invalid_retry_budget, invalid_retry_state, unsafe_funds_retry,
}
use new_humans.Prelude.Int.{ℤ, pos, ◌+ℤ◌, ltb_ℤ}
use new_humans.Js.{int, Value, number, string, is_string}
use new_humans.Idempotency.Attempt.{default_to, read_operation_class, integer_from, or_fail}

abbrev pub default_retry_budget : Value
default_retry_budget = number (int (pos 3))

pub data LookupState : Type 0 where
  not_checked found not_found unavailable : LookupState

pub data Outcome : Type 0 where
  success definitive_failure retryable_failure outcome_unknown : Outcome

pub data Decision : Type 0 where
  return_stored_result stop budget_exhausted query_by_idempotency_key retry_same_key : Decision

unfoldable pub read_outcome : Value → Option Outcome
read_outcome (string s) =
    if s == "SUCCESS"
    then some success
    else if s == "DEFINITIVE_FAILURE"
    then some definitive_failure
    else if s == "RETRYABLE_FAILURE"
    then some retryable_failure
    else if s == "OUTCOME_UNKNOWN"
    then some outcome_unknown
    else none
read_outcome _ = none

unfoldable pub read_lookup_state : Value → Option LookupState
read_lookup_state (string s) =
    if s == "NOT_CHECKED"
    then some not_checked
    else if s == "FOUND"
    then some found
    else if s == "NOT_FOUND"
    then some not_found
    else if s == "UNAVAILABLE"
    then some unavailable
    else none
read_lookup_state _ = none

pub record RetryState : Type 0 where
  pub attempts_made : Value
  pub retry_budget : Value
  pub operation_class : Value
  pub outcome : Value
  pub lookup_state : Value

unfoldable pub total_attempt_limit : Value → Result ℤ
unfolding integer_from ◌+ℤ◌
total_attempt_limit budget = do
  n ← or_fail (integer_from (pos 0) (default_to budget default_retry_budget)) invalid_retry_budget
  ok (n +ℤ pos 1)

-- What follows when the budget is not used up.
abbrev pub decide_in_budget : Outcome → LookupState → Decision
decide_in_budget outcome_unknown not_checked = query_by_idempotency_key
decide_in_budget outcome_unknown unavailable = query_by_idempotency_key
decide_in_budget outcome_unknown not_found = retry_same_key
decide_in_budget retryable_failure _ = retry_same_key
decide_in_budget _ _ = stop

abbrev pub in_budget : ℤ → ℤ → Outcome → LookupState → Decision
in_budget made limit o l = if ltb_ℤ made limit then decide_in_budget o l else budget_exhausted

-- The returns of `decideRetry`, after its checks of the input.
unfoldable pub decide : ℤ → Value → Outcome → LookupState → Result Decision
decide made budget o found = ok return_stored_result
decide made budget success l = ok stop
decide made budget definitive_failure l = ok stop
decide made budget o l = do limit ← total_attempt_limit budget; ok (in_budget made limit o l)

unfoldable pub decide_retry : RetryState → Result Decision
decide_retry s = do
  made ← or_fail (integer_from (pos 0) s.attempts_made) invalid_retry_state
  class ←
      or_fail (read_operation_class (default_to s.operation_class (string "WRITE")))
        invalid_retry_state
  outcome ← or_fail (read_outcome s.outcome) invalid_retry_state
  lookup ←
      or_fail (read_lookup_state (default_to s.lookup_state (string "NOT_CHECKED")))
        invalid_retry_state
  decide made s.retry_budget outcome lookup

abbrev pub is_retry_same_key : Decision → Bool
is_retry_same_key retry_same_key = true
is_retry_same_key _ = false

-- `state.lookupState` is read without its default here.
unfoldable pub assert_funds_retry_safe : RetryState → Result (Unit {0})
assert_funds_retry_safe s = if not (is_string s.operation_class "FUNDS_WRITE") then ok tt else (do
  decision ← decide_retry s
  fail_if
      (is_string s.outcome "OUTCOME_UNKNOWN"
        && (is_retry_same_key decision && not (is_string s.lookup_state "NOT_FOUND")))
      unsafe_funds_retry)
