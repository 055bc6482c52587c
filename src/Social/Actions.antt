-- ===== src/Social/Actions.antt =====
-- The actions that operations read: what the trigger checks of the action of a version.
use new_humans.Prelude.{
  String, true, false, Option, none, some, ok, ◌≡◌, ap, >>=-eq-ok, ok_inj, Code, eq_refl,
  action_evidence_missing, arith,
}
use new_humans.Prelude.Int.{ℤ}
use new_humans.Social.Rows.{ActionRow, Version, Tables, Context, action_time, or_fail}
use new_humans.Social.Evidence.{is_spaces, is_action_of, eqb_ℤ}

-- The actions of the database have identifiers that are not blank.
abbrev pub IsNamed : Tables → Type 0
IsNamed t =
    (action : String) (row : ActionRow) → t.actions action ≡ some row → is_spaces action ≡ false

-- The action of a command is its actor's.
abbrev pub IsIssued : Tables → Context → Type 0
IsIssued t c = (row : ActionRow) → t.actions c.action ≡ some row → row.actor_entity_id ≡ c.actor

-- The trigger's check of the action of a version.
abbrev pub IsActed : Tables → Version → Type 0
IsActed t v = is_action_of v.recorded_by v.changed_at (t.actions v.recorded_action) ≡ true

pub or_fail-eq-ok {ℓ} :
    {A : Type ℓ} (o : Option A) (c : Code) {a : A} → or_fail o c ≡ ok a → o ≡ some a
unfolding or_fail
or_fail-eq-ok none c h = cc
or_fail-eq-ok (some x) c h = ap (λ u. some u) (ok_inj h)

pub eqb_ℤ_refl : (a : ℤ) → eqb_ℤ a a ≡ true
eqb_ℤ_refl a = ground arith

action_row :
    (t : Tables) (action : String) (at : ℤ)
    → action_time t action ≡ ok at
    → (row : ActionRow) × (t.actions action ≡ some row) × (row.created_at ≡ at)
unfolding action_time
action_row t action at h =
    let (row, found, e) = >>=-eq-ok (or_fail (t.actions action) action_evidence_missing) _ h in
    (row, or_fail-eq-ok (t.actions action) _ found, ok_inj e)

pub action_named :
    (t : Tables) (action : String) (at : ℤ)
    → IsNamed t
    → action_time t action ≡ ok at
    → is_spaces action ≡ false
action_named t action at n h = let (row, found, _) = action_row t action at h in n action row found

-- A command's action is evidence of what it records at the action's time.
pub acted_at :
    (t : Tables) (c : Context) (at : ℤ)
    → IsIssued t c
    → action_time t c.action ≡ ok at
    → is_action_of c.actor at (t.actions c.action) ≡ true
acted_at t c at issued h =
    let (row, found, timed) = action_row t c.action at h in
    rw (found, issued row found, timed, eq_refl c.actor, eqb_ℤ_refl at)
