-- ===== src/Knowledge/Keys.antt =====
-- The key of a reference, as a key: what it determines.
use new_humans.Prelude.{
  String, Bool, true, false, List, [], ◌∷◌, ◌++◌, none, ok, ◌==◌, ◌≡◌, refl, sym, ap, subst, ◌∙◌,
  inl, inr, Bool-cases, eq_iff, includes, >>=-eq-ok, ok_inj, fail_if-eq-ok, not, arith, >>=-eq-ok,
}
use new_humans.Js.{is_one_of, text_of, Value, string, get}
use new_humans.Js.Json.{◌<>◌}
use new_humans.Js.Text.{codes}
use new_humans.Js.Text.Codes.{codes-append, codes_inj}
use new_humans.Js.Text.Separators.{Avoids, split_at}
use new_humans.Knowledge.Refs.{
  assert_plain_object, assert_non_empty_string, assert_one_of, knowledge_ref_kinds, key_of,
  assert_knowledge_ref, knowledge_ref_key,
}

-- Free of U+0000.
abbrev pub IsPlain : Value → Type 0
IsPlain v = Avoids 0 (codes (text_of v))

codes-nul : (s t : String) → codes (s <> "\0" <> t) ≡ codes s ++ 0 ∷ codes t
codes-nul s t = codes-append s ("\0" <> t) ∙ ap (λ l. codes s ++ l) (codes-append "\0" t)

nul_inj :
    (s t u v : String)
    → Avoids 0 (codes s)
    → Avoids 0 (codes t)
    → s <> "\0" <> u ≡ t <> "\0" <> v
    → (s ≡ t) × (u ≡ v)
nul_inj s t u v h k e =
    let (p, q) =
      split_at 0 (codes s) (codes t) (codes u) (codes v) h k
        (sym (codes-nul s u) ∙ ap codes e ∙ codes-nul t v) in
    (codes_inj s t p, codes_inj u v q)

AllPlain : List String → Type 0
AllPlain [] = Unit {0}
AllPlain (s ∷ ss) = Avoids 0 (codes s) × AllPlain ss

included_plain :
    (names : List String) (s : String)
    → AllPlain names
    → includes names s ≡ true
    → Avoids 0 (codes s)
unfolding AllPlain
included_plain [] s h e = cc
included_plain (n ∷ ns) s (h, hs) e = elim (Bool-cases (s == n)) [
  | inl same ↦ subst (λ u. Avoids 0 (codes u)) (sym ((eq_iff s n).0 same)) h
  | inr other ↦ included_plain ns s hs (rw other at e)
]

kinds_plain : AllPlain knowledge_ref_kinds
unfolding AllPlain
kinds_plain = ground arith

-- The kind of a checked reference is one of the kinds.
checked_kind : (v : Value) → is_one_of knowledge_ref_kinds v ≡ true → IsPlain v
checked_kind (string s) h = included_plain knowledge_ref_kinds s kinds_plain h
checked_kind v h = cc

true_if_kept : (b : Bool) → not b ≡ false → b ≡ true
true_if_kept true h = refl
true_if_kept false h = cc

key_parts :
    (ref : Value) (k : String)
    → knowledge_ref_key ref ≡ ok k
    → (key_of ref ≡ k) × IsPlain (get "kind" ref)
unfolding knowledge_ref_key assert_knowledge_ref
key_parts ref k h =
    let (_, checked, e) = >>=-eq-ok (assert_knowledge_ref none ref) _ h in
    let (_, _, e1) = >>=-eq-ok (assert_plain_object ref) _ checked in
    let (_, _, e2) = >>=-eq-ok (assert_non_empty_string (get "provider" ref)) _ e1 in
    let (_, _, e3) = >>=-eq-ok (assert_non_empty_string (get "namespace" ref)) _ e2 in
    let (_, _, e4) = >>=-eq-ok (assert_non_empty_string (get "id" ref)) _ e3 in
    let (_, one, _) = >>=-eq-ok (assert_one_of knowledge_ref_kinds (get "kind" ref)) _ e4 in
    (ok_inj e, checked_kind (get "kind" ref) (true_if_kept _ (fail_if-eq-ok _ _ one)))

-- Two references with one key, whose providers and namespaces hold no U+0000, agree in provider,
-- namespace, kind and identifier; the identifier may hold anything.
pub ref_key_inj :
    (a b : Value) (k : String)
    → knowledge_ref_key a ≡ ok k
    → knowledge_ref_key b ≡ ok k
    → IsPlain (get "provider" a) × IsPlain (get "namespace" a)
    → IsPlain (get "provider" b) × IsPlain (get "namespace" b)
    → (text_of (get "provider" a) ≡ text_of (get "provider" b))
      × (text_of (get "namespace" a) ≡ text_of (get "namespace" b))
      × (text_of (get "kind" a) ≡ text_of (get "kind" b))
      × (text_of (get "id" a) ≡ text_of (get "id" b))
ref_key_inj a b k ha hb (pa, na) (pb, nb) =
    let (ka, kind_a) = key_parts a k ha in
    let (kb, kind_b) = key_parts b k hb in
    let (p, e1) = nul_inj _ _ _ _ pa pb (ka ∙ sym kb) in
    let (n, e2) = nul_inj _ _ _ _ na nb e1 in
    let (kind, id) = nul_inj _ _ _ _ kind_a kind_b e2 in (p, n, kind, id)
