-- ===== src/Idempotency/Identity/Scope.antt =====
-- Which operations share a scope.
use text.Mathlib.TextLemmas.{append_assoc}
use new_humans.Prelude.{String, ◌≡◌, sym, ap, ◌∙◌, ◌∷◌, ◌++◌, ok, arith}
use new_humans.Js.{string}
use new_humans.Js.Json.{◌<>◌}
use new_humans.Js.Text.{codes}
use new_humans.Js.Text.Codes.{codes-append, codes_inj}
use new_humans.Js.Text.Separators.{Avoids, split_at}
use new_humans.Idempotency.Attempt.{
  kb_authority, build_cross_product_scope, require_string, separator,
}

-- The scope of accepted texts.
abbrev scope_of : String → String → String → String → String
scope_of w a o k =
    kb_authority <> separator <> w <> separator <> a <> separator <> o <> separator <> k

require_string-eq-ok : (s : String) {t : String} → require_string (string s) ≡ ok t → t ≡ s
unfolding require_string
require_string-eq-ok s h = ground arith

module _ (w a o k : String) where
  scope_parts :
      {t : String}
      → build_cross_product_scope (string w) (string a) (string o) (string k) ≡ ok t
      → t ≡ scope_of w a o k
  unfolding build_cross_product_scope
  scope_parts h = ground (
    arith,
    require_string-eq-ok w,
    require_string-eq-ok a,
    require_string-eq-ok o,
    require_string-eq-ok k,
  )

  scope_accepts :
      (require_string (string w) ≡ ok w)
      → (require_string (string a) ≡ ok a)
      → (require_string (string o) ≡ ok o)
      → (require_string (string k) ≡ ok k)
      → build_cross_product_scope (string w) (string a) (string o) (string k)
        ≡ ok (scope_of w a o k)
  unfolding build_cross_product_scope
  scope_accepts hw ha ho hk = rw (hw, ha, ho, hk)

codes-separated : (s t : String) → codes (s <> separator <> t) ≡ codes s ++ 31 ∷ codes t
codes-separated s t =
    codes-append s (separator <> t) ∙ ap (λ l. codes s ++ l) (codes-append separator t)

-- Free of the separator U+001F.
abbrev pub IsPlain : String → Type 0
IsPlain s = Avoids 31 (codes s)

separated_inj :
    (s t u v : String)
    → IsPlain s
    → IsPlain t
    → s <> separator <> u ≡ t <> separator <> v
    → (s ≡ t) × (u ≡ v)
separated_inj s t u v h k e =
    let (p, q) =
      split_at 31 (codes s) (codes t) (codes u) (codes v) h k
        (sym (codes-separated s u) ∙ ap codes e ∙ codes-separated t v) in
    (codes_inj s t p, codes_inj u v q)

authority-IsPlain : IsPlain kb_authority
authority-IsPlain = ground arith

scope_of_inj :
    (w a o k w' a' o' k' : String)
    → IsPlain w × IsPlain a × IsPlain o
    → IsPlain w' × IsPlain a' × IsPlain o'
    → scope_of w a o k ≡ scope_of w' a' o' k'
    → (w ≡ w') × (a ≡ a') × (o ≡ o') × (k ≡ k')
scope_of_inj w a o k w' a' o' k' (hw, ha, ho) (hw', ha', ho') e =
    let (_, e1) =
      separated_inj kb_authority kb_authority _ _ authority-IsPlain authority-IsPlain e in
    let (w-eq, e2) = separated_inj w w' _ _ hw hw' e1 in
    let (a-eq, e3) = separated_inj a a' _ _ ha ha' e2 in
    let (o-eq, k-eq) = separated_inj o o' _ _ ho ho' e3 in (w-eq, a-eq, o-eq, k-eq)

-- Two operations whose world, actor and operation hold no U+001F have the same scope key only if
-- world, actor, operation and idempotency key all agree.
pub scope_inj :
    (w a o k w' a' o' k' : String) {t : String}
    → IsPlain w × IsPlain a × IsPlain o
    → IsPlain w' × IsPlain a' × IsPlain o'
    → build_cross_product_scope (string w) (string a) (string o) (string k) ≡ ok t
    → build_cross_product_scope (string w') (string a') (string o') (string k') ≡ ok t
    → (w ≡ w') × (a ≡ a') × (o ≡ o') × (k ≡ k')
scope_inj w a o k w' a' o' k' h h' e e' =
    scope_of_inj w a o k w' a' o' k' h h' (sym (scope_parts w a o k e) ∙ scope_parts w' a' o' k' e')

-- An accepted world id that ends in U+001F and a text `a` shares its scope with another world:
-- `(w U+001F a, b)` and `(w, a U+001F b)` have one scope key, if all of them are accepted.
pub scope_collision :
    (w a b o k : String)
    → require_string (string (w <> separator <> a)) ≡ ok (w <> separator <> a)
    → require_string (string b) ≡ ok b
    → require_string (string w) ≡ ok w
    → require_string (string (a <> separator <> b)) ≡ ok (a <> separator <> b)
    → require_string (string o) ≡ ok o
    → require_string (string k) ≡ ok k
    → build_cross_product_scope (string (w <> separator <> a)) (string b) (string o) (string k)
      ≡ build_cross_product_scope (string w) (string (a <> separator <> b)) (string o) (string k)
scope_collision w a b o k hwa hb hw hab ho hk =
    scope_accepts (w <> separator <> a) b o k hwa hb ho hk
    ∙ ap ok (simp append_assoc)
    ∙ sym (scope_accepts w (a <> separator <> b) o k hw hab ho hk)
