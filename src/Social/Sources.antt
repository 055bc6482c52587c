-- ===== src/Social/Sources.antt =====
-- The sources that the operations write pass the trigger's check of sources.
use new_humans.Prelude.{
  arith, String, Bool, true, false, not, [], ◌∷◌, Option, none, some, ok, ◌==◌, ◌&&◌, ◌||◌, ◌≡◌,
  refl, sym, subst, ◌∙◌, fail_if, if◌then◌else◌, inl, inr, Bool-cases, eq_iff, eq_refl, ok_inj,
  >>=-eq-ok, fail_if-eq-ok, invalid_source_ref, invalid_timestamp, eqb, ℕ,
}
use Prim.Native.Char.{Char, code}
use new_humans.Prelude.Int.{ℤ}
use new_humans.Js.Text.{trim, is_space, strip_start, strip_end}
use new_humans.Social.Rows.{Host, unilateral, derived, subject, Provenance, Evidence}
use new_humans.Social.Rules.{
  Rule, SourceRef, text_or_empty, actor_provenance, derived_provenance, is_none, date_or, date,
  optional_role, optional_version,
}
use new_humans.Social.Evidence.{is_spaces, all_records, any_record, assert_relationship_provenance}
use new_humans.Social.Types.{KindFor, Fits}

absurd_Bool {ℓ} : {A : Type ℓ} → true ≡ false → A
absurd_Bool h = cc

space_is_space : (c : ℕ) → eqb c 32 ≡ true → is_space c ≡ true
unfolding is_space
space_is_space c h = ground arith

both_true : (a b : Bool) → (a && b) ≡ true → (a ≡ true) × (b ≡ true)
both_true true true h = (refl, refl)
both_true true false h = cc
both_true false b h = cc

strip_once :
    (c : Char) (rest : String)
    → (is_spaces rest ≡ true → (rest == "") ≡ true)
    → (b : Bool) → (is_space (code c) && (rest == "")) ≡ b
    → is_spaces (if b then "" else String.◌∷◌ c rest) ≡ true
    → ((if b then "" else String.◌∷◌ c rest) == "") ≡ true
unfolding is_spaces
strip_once c rest again true e h = refl
strip_once c rest again false e h =
    let (space, spaces) = both_true (eqb (code c) 32) (is_spaces rest) h in
    let s = space_is_space (code c) space in let r = again spaces in absurd_Bool (rw (s, r) at e)

stripped_spaces : (s : String) → is_spaces (strip_end s) ≡ true → (strip_end s == "") ≡ true
unfolding is_spaces strip_end
stripped_spaces String.[] h = refl
stripped_spaces (String.◌∷◌ c s) h =
    strip_once c (strip_end s) (stripped_spaces s) (is_space (code c) && (strip_end s == "")) refl h

-- A trimmed text that is not empty is not blank.
trimmed_text : (s : String) → (trim s == "") ≡ false → is_spaces (trim s) ≡ false
unfolding trim
trimmed_text s h = elim (Bool-cases (is_spaces (strip_end (strip_start s)))) [
  | inl blank ↦ absurd_Bool (sym (stripped_spaces (strip_start s) blank) ∙ h)
  | inr text ↦ text
]

pub actor-Provenance :
    (kind : String) (r : Rule) (action : String) (at : ℤ)
    → Fits kind r
    → r.mode ≡ unilateral
    → is_spaces action ≡ false
    → assert_relationship_provenance kind (actor_provenance r action at subject) ≡ true
unfolding assert_relationship_provenance actor_provenance all_records any_record
actor-Provenance kind r action at f m a =
    let k : kind ≡ "considers_friend" = subst (λ u. KindFor u kind) m f.shape in
    let b = (eq_iff kind "considers_friend").1 k in
    rw (f.source, b, f.records, a, f.listed, eq_refl r.source_kind, eq_refl r.record_type)

single-Provenance :
    (kind : String) (r : Rule) (e : Evidence)
    → Fits kind r
    → r.mode ≡ derived
    → e.record_type ≡ r.record_type
    → is_spaces e.record_id ≡ false
    → assert_relationship_provenance kind (record { source_kind = r.source_kind; records = e ∷ [] })
      ≡ true
unfolding assert_relationship_provenance all_records any_record
single-Provenance kind r e f m t a =
    let s : KindFor derived kind = subst (λ u. KindFor u kind) m f.shape in
    rw (f.source, s.0, s.1, f.records, a, t, f.listed, eq_refl r.source_kind, eq_refl r.record_type)

second_false : (a b c : Bool) → (a || b || c) ≡ false → b ≡ false
second_false true b c h = absurd_Bool h
second_false false true c h = absurd_Bool h
second_false false false c h = refl

pub derived-Provenance :
    (h : Host) (kind : String) (r : Rule) (source : Option SourceRef) (p : Provenance)
    → derived_provenance h r source ≡ ok p
    → Fits kind r
    → r.mode ≡ derived
    → assert_relationship_provenance kind p ≡ true
unfolding derived_provenance
derived-Provenance h kind r none p e f m = cc
derived-Provenance h kind r (some s) p e f m =
    let (_, checked, e1) =
      >>=-eq-ok
        (fail_if
          (not (h.upper_case (trim (text_or_empty s.kind)) == r.source_kind)
            || trim (text_or_empty s.id) == ""
            || is_none s.source_occurred_at)
          invalid_source_ref)
        _ e in
    let (at, _, e2) = >>=-eq-ok (date_or (date h s.source_occurred_at) invalid_timestamp) _ e1 in
    let (role, _, e3) = >>=-eq-ok (optional_role h s.role) _ e2 in
    let (version, _, e4) = >>=-eq-ok (optional_version s.source_version) _ e3 in
    subst (λ u. assert_relationship_provenance kind u ≡ true) (ok_inj e4)
      (single-Provenance kind r _ f m refl (
        trimmed_text (text_or_empty s.id)
          (second_false _ (trim (text_or_empty s.id) == "") _ (fail_if-eq-ok _ _ checked))))
