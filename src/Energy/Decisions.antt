-- ===== src/Energy/Decisions.antt =====
-- The decisions on activation and activity, against the thresholds.
use new_humans.Prelude.{◌≡◌, ◌≢◌, ◌↔◌, Bool, true, arith, refl, sym, if◌then◌else◌}
use new_humans.Prelude.Int.{ℤ, pos, ◌-ℤ◌, ◌≤ℤ◌, ◌<ℤ◌, leb_ℤ}
use new_humans.Energy.{
  first_activation_min_micro_e, daily_activity_fee_micro_e, task_seek_min_micro_e,
  first_activation_minimum_unfunded, daily_fee_unfunded, allowed, activation_decision,
  activity_eligibility, active_can_seek, active_inbound_only,
}

-- What an allowed activation promises of the wallet after the fee.
pub record Promise (available fee after : ℤ) (seek : Bool) : Type 0 where
  pub funded : first_activation_min_micro_e ≤ℤ available
  pub charged : fee ≡ daily_activity_fee_micro_e
  pub remains : after ≡ available -ℤ fee
  pub positive : pos 0 <ℤ after
  pub can_act : (activity_eligibility after true).can_act ≡ true
  pub can_seek : (activity_eligibility after true).can_seek_tasks ≡ seek

promise_parts :
    (available fee after : ℤ) (seek : Bool)
    → activation_decision available ≡ allowed fee after seek
    → (first_activation_min_micro_e ≤ℤ available)
      × (fee ≡ daily_activity_fee_micro_e)
      × (after ≡ available -ℤ daily_activity_fee_micro_e)
      × (pos 0 <ℤ after)
      × (seek ≡ leb_ℤ task_seek_min_micro_e after)
unfolding activation_decision
promise_parts available fee after seek h = ground arith

eligible_when_positive :
    (after : ℤ)
    → pos 0 <ℤ after
    → activity_eligibility after true ≡ record {
      can_act = true;
      can_seek_tasks = leb_ℤ task_seek_min_micro_e after;
      code = if leb_ℤ task_seek_min_micro_e after then active_can_seek else active_inbound_only;
    }
unfolding activity_eligibility
eligible_when_positive after h = ground arith

-- An allowed activation was funded with at least the minimum, charges the daily fee, and leaves a
-- positive rest on which `activityEligibility`, with the fee paid, grants what was promised: to
-- act, and to seek tasks exactly as the decision says.
pub activation-Promise :
    (available fee after : ℤ) (seek : Bool)
    → activation_decision available ≡ allowed fee after seek
    → Promise available fee after seek
activation-Promise available fee after seek h =
    let (funded, charged, remains, positive, seeks) = promise_parts available fee after seek h in
    let e = eligible_when_positive after positive in
    record {
      funded = funded;
      charged = charged;
      remains = rw charged remains;
      positive = positive;
      can_act = rw e refl;
      can_seek = rw e (sym seeks);
    }

-- An activation is refused exactly below the first-activation minimum, and always for that reason:
-- the refusal for the daily fee alone never occurs.
pub activation_refused_iff :
    (available : ℤ)
    → ((activation_decision available ≡ first_activation_minimum_unfunded)
        ↔ (available <ℤ first_activation_min_micro_e))
      × (activation_decision available ≢ daily_fee_unfunded)
unfolding activation_decision
activation_refused_iff available = ((λ h. ground arith, λ h. ground arith), λ h. ground arith)

-- More energy never takes a right away.
pub eligibility_mono :
    (a b : ℤ) (paid : Bool)
    → a ≤ℤ b
    → ((activity_eligibility a paid).can_act ≡ true → (activity_eligibility b paid).can_act ≡ true)
      × ((activity_eligibility a paid).can_seek_tasks ≡ true
          → (activity_eligibility b paid).can_seek_tasks ≡ true)
unfolding activity_eligibility
eligibility_mono a b paid h = ((λ k. ground arith), λ k. ground arith)
