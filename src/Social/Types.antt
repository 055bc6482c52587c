-- ===== src/Social/Types.antt =====
-- What the table of types says of each type, against the database's own table.
use new_humans.Prelude.{
  String, true, false, not, List, [], ◌∷◌, Option, none, some, ok, ◌==◌, ◌≡◌, refl, sym, ap, subst,
  ◌∙◌, includes, inl, inr, Bool-cases, eq_iff, some_inj, ok_inj, guarded, invalid_relationship_type,
}
use new_humans.Js.Text.{trim}
use new_humans.Social.Rows.{Mode, unilateral, mutual_mode, derived}
use new_humans.Social.Rules.{
  Rule, type_rules, find_rule, rule_or_inherited, inherited_names, text_or_empty,
  require_relationship_type,
}
use new_humans.Social.Evidence.{expected_kind, expected_record_type, record_types}

abbrev pub KindFor : Mode → String → Type 0
KindFor unilateral kind = kind ≡ "considers_friend"
KindFor mutual_mode kind = kind ≡ "mutual_friendship"
KindFor derived kind =
    ((kind == "considers_friend") ≡ false) × ((kind == "mutual_friendship") ≡ false)

-- A rule of `TYPE_RULES` says what the trigger expects of its type.
pub record Fits (kind : String) (r : Rule) : Type 0 where
  pub trimmed : trim kind ≡ kind
  pub source : expected_kind kind ≡ some r.source_kind
  pub records : expected_record_type kind ≡ some r.record_type
  pub listed : includes record_types r.record_type ≡ true
  pub shape : KindFor r.mode kind

abbrev pub AllFit : List (String × Rule) → Type 0
AllFit [] = Unit {0}
AllFit (e ∷ es) = Fits e.0 e.1 × AllFit es

found-Fits :
    (es : List (String × Rule)) (kind : String) (r : Rule)
    → AllFit es
    → find_rule kind es ≡ some r
    → Fits kind r
unfolding find_rule
found-Fits [] kind r h f = cc
found-Fits (e ∷ es) kind r (h, hs) f = elim (Bool-cases (kind == e.0)) [
  | inl same ↦
      subst (λ u. Fits kind u) (some_inj (rw same at f))
        (subst (λ u. Fits u e.1) (sym ((eq_iff kind e.0).0 same)) h)
  | inr other ↦ found-Fits es kind r hs (rw other at f)
]

type_rules-AllFit : AllFit type_rules
unfolding expected_kind expected_record_type trim
type_rules-AllFit = (
  record { trimmed = refl; source = refl; records = refl; listed = refl; shape = refl },
  (
    record { trimmed = refl; source = refl; records = refl; listed = refl; shape = refl },
    (
      record { trimmed = refl; source = refl; records = refl; listed = refl; shape = (refl, refl) },
      (
        record {
          trimmed = refl;
          source = refl;
          records = refl;
          listed = refl;
          shape = (refl, refl);
        },
        (
          record {
            trimmed = refl;
            source = refl;
            records = refl;
            listed = refl;
            shape = (refl, refl);
          },
          (
            record {
              trimmed = refl;
              source = refl;
              records = refl;
              listed = refl;
              shape = (refl, refl);
            },
            (
              record {
                trimmed = refl;
                source = refl;
                records = refl;
                listed = refl;
                shape = (refl, refl);
              },
              (
                record {
                  trimmed = refl;
                  source = refl;
                  records = refl;
                  listed = refl;
                  shape = (refl, refl);
                },
                (
                  record {
                    trimmed = refl;
                    source = refl;
                    records = refl;
                    listed = refl;
                    shape = (refl, refl);
                  },
                  tt,
                ),
              ),
            ),
          ),
        ),
      ),
    ),
  ),
)

required_rule :
    (kind : String) (o found : Option Rule) (k : String)
    → rule_or_inherited kind o ≡ ok (k, found)
    → (k ≡ kind) × (found ≡ o)
unfolding rule_or_inherited
required_rule kind (some r) found k h =
    (ap (λ u. u.0) (sym (ok_inj h)), ap (λ u. u.1) (sym (ok_inj h)))
required_rule kind none found k h =
    let e = ok_inj (guarded (not (includes inherited_names kind)) invalid_relationship_type _ h) in
    (ap (λ u. u.0) (sym e), ap (λ u. u.1) (sym e))

-- A type that was accepted stands in the table, unless the name is inherited.
pub required-Fits :
    (given : Option String) (kind : String) (found : Option Rule) (r : Rule)
    → require_relationship_type given ≡ ok (kind, found)
    → found ≡ some r
    → Fits kind r
unfolding require_relationship_type
required-Fits given kind found r h f =
    let (same, rule) = required_rule (trim (text_or_empty given)) _ found kind h in
    subst (λ u. Fits u r) (sym same)
      (found-Fits type_rules (trim (text_or_empty given)) r type_rules-AllFit (sym rule ∙ f))

pub required_trim :
    (given : String) (kind : String) (found : Option Rule)
    → require_relationship_type (some given) ≡ ok (kind, found)
    → kind ≡ trim given
unfolding require_relationship_type
required_trim given kind found h = (required_rule (trim given) _ found kind h).0

pub required_found :
    (given : Option String) (kind : String) (found : Option Rule)
    → require_relationship_type given ≡ ok (kind, found)
    → found ≡ find_rule kind type_rules
unfolding require_relationship_type
required_found given kind found h =
    let (same, rule) = required_rule (trim (text_or_empty given)) _ found kind h in
    rule ∙ ap (λ u. find_rule u type_rules) (sym same)

pub registered-Fits : (kind : String) (r : Rule) → find_rule kind type_rules ≡ some r → Fits kind r
registered-Fits kind r f = found-Fits type_rules kind r type_rules-AllFit f
