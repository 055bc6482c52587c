-- ===== src/Knowledge/Subjects.antt =====
-- What is personal stays with its subject.
use new_humans.Prelude.{
  String, Bool, true, false, not, ok, ◌>>◌, ◌≡◌, refl, ap, subst, eq_iff, >>=-eq-ok,
}
use new_humans.Js.{same_text, Value, string, get}
use new_humans.Knowledge.Refs.{Check, refuse_if, assert_plain_object}
use new_humans.Knowledge.Answers.{
  assert_overlay_result, assert_belief_result, assert_resolve_challenge_result,
}
use new_humans.Knowledge.Port.{
  Operation, read_personal_overlay, declare_belief, resolve_personal_challenge, Reply, returned,
  assert_answer, port_call,
}
use new_humans.Knowledge.Calls.{Ending, answers, call-Ending}

abbrev pub is_personal : Operation → Bool
is_personal read_personal_overlay = true
is_personal declare_belief = true
is_personal resolve_personal_challenge = true
is_personal _ = false

same_subject : (v w : Value) → same_text v w ≡ true → (s : String) × (v ≡ string s) × (w ≡ string s)
same_subject (string a) (string b) h = (b, ap string ((eq_iff a b).0 h), refl)
same_subject v w h = cc

after_subject :
    (v : Value) (same : Bool) (rest : Check)
    → assert_plain_object v >> (refuse_if (not same) >> rest) ≡ ok tt
    → same ≡ true
after_subject v true rest h = refl
after_subject v false rest h = let (_, _, bad) = >>=-eq-ok (assert_plain_object v) _ h in cc

checked_subject :
    (o : Operation) (input v : Value)
    → is_personal o ≡ true
    → assert_answer o input v ≡ ok tt
    → same_text (get "subject_id" v) (get "subject_id" input) ≡ true
unfolding assert_answer assert_overlay_result assert_belief_result assert_resolve_challenge_result
checked_subject read_personal_overlay input v p h = after_subject v _ _ h
checked_subject declare_belief input v p h = after_subject v _ _ h
checked_subject resolve_personal_challenge input v p h = after_subject v _ _ h
checked_subject _ input v p h = cc

returned_checked :
    (o : Operation) (f : Value → Reply) (input v : Value)
    → Ending o f input (returned v)
    → assert_answer o input v ≡ ok tt
returned_checked o f input v (answers asked e good) = good

-- Whatever the provider is, an answer that the port returns for a personal overlay, a belief or the
-- resolution of a personal challenge is about the subject that was asked for: both name one text.
pub returned-OwnSubject :
    (o : Operation) (f : Value → Reply) (input v : Value)
    → is_personal o ≡ true
    → port_call o f input ≡ returned v
    → (s : String) × (get "subject_id" v ≡ string s) × (get "subject_id" input ≡ string s)
returned-OwnSubject o f input v p h = same_subject _ _ (
    checked_subject o input v p
      (returned_checked o f input v (subst (λ r. Ending o f input r) h (call-Ending o f input))))
