-- ===== src/Energy.antt =====
-- src/domain/energy.js with src/shared/constants.js: the thresholds of activity, in microE.
pub mod Decisions
mod Tests
use Prim.Native.String
use new_humans.Prelude.{
  ℕ, ◌*◌, String, Bool, true, false, not, List, [], ◌∷◌, if◌then◌else◌, Option, none, some, Result,
  ok, err, type_error, ◌&&◌, ◌||◌, ◌==◌, eqb,
}
use new_humans.Prelude.Int.{ℤ, pos, sub_ℕ, ◌-ℤ◌, leb_ℤ, ltb_ℤ}
use new_humans.Js.{Value, string}
use new_humans.Js.Text.{codes, is_digit}
use new_humans.EconomyPort.{value_from}

abbrev pub micro_e_per_e : ℕ
micro_e_per_e = 1000000

abbrev pub first_activation_min_micro_e : ℤ
first_activation_min_micro_e = pos (100 * micro_e_per_e)

abbrev pub daily_activity_fee_micro_e : ℤ
daily_activity_fee_micro_e = pos (1 * micro_e_per_e)

abbrev pub task_seek_min_micro_e : ℤ
task_seek_min_micro_e = pos (100 * micro_e_per_e)

some_digits : List ℕ → Bool
some_digits [] = false
some_digits (c ∷ []) = is_digit c
some_digits (c ∷ cs) = is_digit c && some_digits cs

-- `BigInt(s)` of `-?\d+`.
signed_value : List ℕ → Option ℤ
unfolding some_digits value_from is_digit
signed_value [] = none
signed_value (c ∷ cs) =
    if eqb c b'-' && some_digits cs
    then some (sub_ℕ 0 (value_from 0 cs))
    else if some_digits (c ∷ cs)
    then some (pos (value_from 0 (c ∷ cs)))
    else none

abbrev or_type_error : Option ℤ → Result ℤ
or_type_error none = err type_error
or_type_error (some z) = ok z

-- A `bigint` is returned as it is; the other case is a text.
pub data Amount : Type 0 where
  bigint : ℤ → Amount
  value : Value → Amount

unfoldable pub parse_micro_e : Amount → Result ℤ
unfolding signed_value
parse_micro_e (bigint z) = ok z
parse_micro_e (value (string s)) = or_type_error (signed_value (codes s))
parse_micro_e (value _) = err type_error

abbrev or_zero : Option ℤ → ℤ
or_zero none = pos 0
or_zero (some z) = z

-- `reserved` and `frozen` are 0 where they are left out.
unfoldable pub available_energy : ℤ → Option ℤ → Option ℤ → ℤ
unfolding ◌-ℤ◌
available_energy posted reserved frozen = posted -ℤ or_zero reserved -ℤ or_zero frozen

pub data ActivationDecision : Type 0 where
  first_activation_minimum_unfunded daily_fee_unfunded : ActivationDecision
  allowed : (fee_micro_e after_fee_micro_e : ℤ) (can_seek_tasks : Bool) → ActivationDecision

unfoldable pub activation_decision : ℤ → ActivationDecision
unfolding ◌-ℤ◌
activation_decision available =
    if ltb_ℤ available first_activation_min_micro_e
    then first_activation_minimum_unfunded
    else if leb_ℤ (available -ℤ daily_activity_fee_micro_e) (pos 0)
    then daily_fee_unfunded
    else allowed daily_activity_fee_micro_e (available -ℤ daily_activity_fee_micro_e)
        (leb_ℤ task_seek_min_micro_e (available -ℤ daily_activity_fee_micro_e))

pub data EligibilityCode : Type 0 where
  no_available_energy daily_fee_required active_can_seek active_inbound_only : EligibilityCode

pub record Eligibility : Type 0 where
  pub can_act : Bool
  pub can_seek_tasks : Bool
  pub code : EligibilityCode

unfoldable pub activity_eligibility : ℤ → Bool → Eligibility
activity_eligibility available daily_fee_paid =
    if leb_ℤ available (pos 0)
    then record { can_act = false; can_seek_tasks = false; code = no_available_energy }
    else if not daily_fee_paid
    then record { can_act = false; can_seek_tasks = false; code = daily_fee_required }
    else record {
      can_act = true;
      can_seek_tasks = leb_ℤ task_seek_min_micro_e available;
      code = if leb_ℤ task_seek_min_micro_e available then active_can_seek else active_inbound_only;
    }
