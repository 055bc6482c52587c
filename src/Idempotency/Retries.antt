-- ===== src/Idempotency/Retries.antt =====
-- When a retry is decided, and how many attempts follow.
use new_humans.Prelude.{
  ℕ, suc, ◌+◌, ◌≤◌, ◌≡◌, ◌≢◌, refl, ◌↔◌, ◌⊎◌, inl, inr, true, some, ok, err, ◌>>=◌, arith,
  unsafe_funds_retry, ap, ◌∙◌, Result-cases, eq_iff, Option-cases, if◌then◌else◌,
}
use new_humans.Prelude.Int.{ℤ, pos, ◌<ℤ◌, ltb_ℤ}
use new_humans.Js.{int, Value, undefined, number, string, is_string}
use new_humans.Idempotency.Attempt.{OperationClass, read_operation_class, default_to, integer_from}
use new_humans.Idempotency.Retry.{
  LookupState, not_found, found, Outcome, retryable_failure, outcome_unknown, Decision,
  retry_same_key, budget_exhausted, RetryState, read_outcome, read_lookup_state,
  total_attempt_limit, decide_retry, decide, assert_funds_retry_safe, is_retry_same_key,
}

-- The outcome was a failure that may be retried, and no stored result was found; or it was
-- unknown, and the lookup found that the operation is absent.
abbrev pub Retriable : Outcome → LookupState → Type 0
Retriable o l = ((o ≡ retryable_failure) × (l ≢ found)) ⊎ ((o ≡ outcome_unknown) × (l ≡ not_found))

module _ (made : ℤ) (budget : Value) where
  decide_after :
      (o : Outcome) (l : LookupState)
      → Retriable o l
      → decide made budget o l ≡ (do
        limit ← total_attempt_limit budget
        ok (if ltb_ℤ made limit then retry_same_key else budget_exhausted))
  unfolding decide
  decide_after retryable_failure l r = ground arith
  decide_after outcome_unknown l r = ground arith
  decide_after _ l r = ground arith

  decide-Retriable :
      (o : Outcome) (l : LookupState)
      → decide made budget o l ≡ ok retry_same_key
      → (limit : ℤ) × (total_attempt_limit budget ≡ ok limit) × (made <ℤ limit) × Retriable o l
  unfolding decide
  decide-Retriable o l h = elim (Result-cases (total_attempt_limit budget)) [
    | inl (limit, e) ↦ (limit, e, ground arith, ground arith)
    | inr (c, e) ↦ absurd (ground arith)
  ]

-- A state passes the checks, as these values.
pub record Reads (s : RetryState) (made : ℤ) (o : Outcome) (l : LookupState) : Type 0 where
  pub attempts : integer_from (pos 0) s.attempts_made ≡ some made
  pub class : OperationClass
  pub has_class : read_operation_class (default_to s.operation_class (string "WRITE")) ≡ some class
  pub outcome : read_outcome s.outcome ≡ some o
  pub lookup : read_lookup_state (default_to s.lookup_state (string "NOT_CHECKED")) ≡ some l

decide_retry-Reads :
    {s : RetryState} {made : ℤ} {o : Outcome} {l : LookupState}
    → Reads s made o l
    → decide_retry s ≡ decide made s.retry_budget o l
unfolding decide_retry
decide_retry-Reads r = rw (r.attempts, r.has_class, r.outcome, r.lookup)

Reads-of_decision :
    (s : RetryState) (d : Decision)
    → decide_retry s ≡ ok d
    → (made : ℤ) × (o : Outcome) × (l : LookupState) × Reads s made o l
unfolding decide_retry
Reads-of_decision s d h = elim (Option-cases (integer_from (pos 0) s.attempts_made)) [
  | inl e ↦ absurd (ground arith)
  | inr (made, attempts) ↦
      elim (Option-cases (read_operation_class (default_to s.operation_class (string "WRITE")))) [
        | inl e ↦ absurd (ground arith)
        | inr (class, has_class) ↦ elim (Option-cases (read_outcome s.outcome)) [
          | inl e ↦ absurd (ground arith)
          | inr (o, outcome) ↦
              elim (Option-cases
                (read_lookup_state (default_to s.lookup_state (string "NOT_CHECKED")))) [
                  | inl e ↦ absurd (ground arith)
                  | inr (l, lookup) ↦ (
                    made,
                    o,
                    l,
                    record {
                      attempts = attempts;
                      class = class;
                      has_class = has_class;
                      outcome = outcome;
                      lookup = lookup;
                    },
                  )
                ]
        ]
      ]
]

-- What a decision to retry rests on.
pub record RetryAllowed (s : RetryState) : Type 0 where
  pub made : ℤ
  pub limit : ℤ
  pub outcome : Outcome
  pub lookup : LookupState
  pub reads : Reads s made outcome lookup
  pub has_limit : total_attempt_limit s.retry_budget ≡ ok limit
  pub below : made <ℤ limit
  pub retriable : Retriable outcome lookup

RetryAllowed-of_retry : (s : RetryState) → decide_retry s ≡ ok retry_same_key → RetryAllowed s
RetryAllowed-of_retry s h =
    let (made, o, l, r) = Reads-of_decision s retry_same_key h in
    let (limit, e, below, retriable) =
      decide-Retriable made s.retry_budget o l (rw (decide_retry-Reads r) at h) in
    record {
      made = made;
      limit = limit;
      outcome = o;
      lookup = l;
      reads = r;
      has_limit = e;
      below = below;
      retriable = retriable;
    }

retry_of_RetryAllowed : (s : RetryState) → RetryAllowed s → decide_retry s ≡ ok retry_same_key
retry_of_RetryAllowed s a =
    decide_retry-Reads a.reads
    ∙ decide_after a.made s.retry_budget a.outcome a.lookup a.retriable
    ∙ rw a.has_limit (ground (arith, a.below))

-- `decideRetry` answers RETRY_SAME_KEY exactly when its input is valid, fewer attempts were made
-- than the budget allows, and the outcome was a retryable failure with no stored result found, or
-- unknown with the operation looked up and found absent.
pub retry_iff : (s : RetryState) → (decide_retry s ≡ ok retry_same_key) ↔ RetryAllowed s
retry_iff s = (RetryAllowed-of_retry s, retry_of_RetryAllowed s)

-- The attempts of one operation: the first, and one after each decision to retry that was made
-- with the number of attempts so far.
pub data Attempts (budget : Value) : ℕ → Type 0 where
  first : Attempts budget 1
  again :
      {n : ℕ}
      → Attempts budget n
      → (s : RetryState) → s.attempts_made ≡ number (int (pos n))
      → s.retry_budget ≡ budget
      → decide_retry s ≡ ok retry_same_key
      → Attempts budget (suc n)

attempts_below_limit :
    (n b : ℕ) (s : RetryState)
    → s.attempts_made ≡ number (int (pos n))
    → s.retry_budget ≡ number (int (pos b))
    → decide_retry s ≡ ok retry_same_key
    → suc n ≤ b + 1
unfolding total_attempt_limit
attempts_below_limit n b s attempts budget h =
    let a = RetryAllowed-of_retry s h in
    let made : a.made ≡ pos n = unfold integer_from in ground (arith, a.reads.attempts) in
    ground (arith, a.has_limit, a.below)

-- With a retry budget of `b` one operation has at most `b + 1` attempts, however the outcomes and
-- the lookups fall.
pub Attempts-le : (b n : ℕ) → Attempts (number (int (pos b))) n → n ≤ b + 1
Attempts-le b n first = omega arith
Attempts-le b n (again {n = m} before s attempts budget h) =
    attempts_below_limit m b s attempts budget h

is_retry : (d : Decision) → is_retry_same_key d ≡ true → d ≡ retry_same_key
is_retry retry_same_key h = refl
is_retry _ h = cc

outcome_of_string :
    (v : Value) → is_string v "OUTCOME_UNKNOWN" ≡ true → read_outcome v ≡ some outcome_unknown
unfolding read_outcome
outcome_of_string (string t) h = rw ((eq_iff t "OUTCOME_UNKNOWN").0 h)
outcome_of_string _ h = cc

lookup_is_string :
    (v : Value)
    → read_lookup_state (default_to v (string "NOT_CHECKED")) ≡ some not_found
    → is_string v "NOT_FOUND" ≡ true
unfolding read_lookup_state
lookup_is_string (string t) h = ground arith
lookup_is_string undefined h = cc
lookup_is_string _ h = cc

decide_retry-ne-unsafe : (s : RetryState) → decide_retry s ≢ err unsafe_funds_retry
unfolding decide_retry decide total_attempt_limit
decide_retry-ne-unsafe s h = ground arith

retry_looked_up :
    (s : RetryState)
    → decide_retry s ≡ ok retry_same_key
    → is_string s.outcome "OUTCOME_UNKNOWN" ≡ true
    → is_string s.lookup_state "NOT_FOUND" ≡ true
retry_looked_up s h unknown =
    let a = RetryAllowed-of_retry s h in
    let o : a.outcome ≡ outcome_unknown =
      ground (arith, a.reads.outcome, outcome_of_string s.outcome unknown) in
    let l : a.lookup ≡ not_found = ground (arith, a.retriable) in
    lookup_is_string s.lookup_state (rw (← l) a.reads.lookup)

-- The last check of `assertFundsRetrySafe` never fails: `decideRetry` already asks for the lookup.
pub funds_retry-ne-unsafe : (s : RetryState) → assert_funds_retry_safe s ≢ err unsafe_funds_retry
unfolding assert_funds_retry_safe
funds_retry-ne-unsafe s h = elim (Result-cases (decide_retry s)) [
  | inl (d, e) ↦
      let d' : is_retry_same_key d ≡ true = ground arith in
      let unknown : is_string s.outcome "OUTCOME_UNKNOWN" ≡ true = ground arith in
      let looked : is_string s.lookup_state "NOT_FOUND" ≡ true =
        retry_looked_up s (e ∙ ap ok (is_retry d d')) unknown in
      ground arith
  | inr (c, e) ↦ decide_retry-ne-unsafe s (ground arith)
]
