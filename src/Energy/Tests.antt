-- ===== src/Energy/Tests.antt =====
-- The thresholds at concrete balances.
use new_humans.Prelude.{◌≡◌, ◌≢◌, ◌↔◌, refl, true, ok, err, type_error}
use new_humans.Prelude.Int.{pos, negsuc, ◌<ℤ◌}
use new_humans.Js.{string}
use new_humans.Energy.{
  value, parse_micro_e, activation_decision, allowed, first_activation_minimum_unfunded,
  daily_fee_unfunded, first_activation_min_micro_e,
}
use new_humans.Energy.Decisions.{activation_refused_iff}

parse_signed : parse_micro_e (value (string "-12")) ≡ ok (negsuc 11)
unfolding parse_micro_e
parse_signed = refl

parse_refused : parse_micro_e (value (string "1.5")) ≡ err type_error
unfolding parse_micro_e
parse_refused = refl

activated : activation_decision (pos 150000000) ≡ allowed (pos 1000000) (pos 149000000) true
unfolding activation_decision
activated = refl

activation_refused_iff_example :
    ((activation_decision (pos 5) ≡ first_activation_minimum_unfunded)
      ↔ (pos 5 <ℤ first_activation_min_micro_e))
    × (activation_decision (pos 5) ≢ daily_fee_unfunded)
activation_refused_iff_example = activation_refused_iff (pos 5)
