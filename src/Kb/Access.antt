-- ===== src/Kb/Access.antt =====
-- What a readiness report and an access decision say.
use new_humans.Prelude.{Bool, true, false, ok, >>=-eq-ok, ok_inj, ◌≡◌, refl, subst, ◌↔◌, arith}
use new_humans.Js.{Value, get}
use new_humans.Kb.Readiness.{
  KbCapability, economy, memory, knowledge, ready, unavailable, normalize_capability, KbReport,
  state_of, overall_of, slots_of, capabilities_object, build_kb_readiness, AccessMode, read, write,
  is_ready_for,
}

-- A report shows the given readiness of every capability, for every access.
abbrev pub Shows : KbReport → Bool → Type 0
Shows r b = (a : AccessMode) (c : KbCapability) → is_ready_for a (state_of r c) ≡ b

overall_of_report :
    (v : Value) (r : KbReport)
    → build_kb_readiness v ≡ ok r
    → r.overall ≡ overall_of (slots_of r.of_economy r.of_memory r.of_knowledge)
unfolding build_kb_readiness
overall_of_report v r h =
    let (capabilities, _, h1) = >>=-eq-ok (capabilities_object v) _ h in
    let (e, _, h2) = >>=-eq-ok (normalize_capability (get "economy" capabilities)) _ h1 in
    let (m, _, h3) = >>=-eq-ok (normalize_capability (get "memory" capabilities)) _ h2 in
    let (k, _, h4) = >>=-eq-ok (normalize_capability (get "knowledge" capabilities)) _ h3 in
    subst (λ x. x.overall ≡ overall_of (slots_of x.of_economy x.of_memory x.of_knowledge))
      (ok_inj h4) refl

-- Every capability, for every access, by one proof for each slot.
Shows-each :
    (r : KbReport) (b : Bool)
    → r.of_economy.read_ready ≡ b × r.of_economy.write_ready ≡ b
    → r.of_memory.read_ready ≡ b × r.of_memory.write_ready ≡ b
    → r.of_knowledge.read_ready ≡ b × r.of_knowledge.write_ready ≡ b
    → Shows r b
Shows-each r b (er, ew) (mr, mw) (kr, kw) read economy = er
Shows-each r b (er, ew) (mr, mw) (kr, kw) read memory = mr
Shows-each r b (er, ew) (mr, mw) (kr, kw) read knowledge = kr
Shows-each r b (er, ew) (mr, mw) (kr, kw) write economy = ew
Shows-each r b (er, ew) (mr, mw) (kr, kw) write memory = mw
Shows-each r b (er, ew) (mr, mw) (kr, kw) write knowledge = kw

module _ (v : Value) (r : KbReport) (built : build_kb_readiness v ≡ ok r) where
  Shows-ready : r.overall ≡ ready → Shows r true
  Shows-ready h =
      let o = overall_of_report v r built in
      Shows-each r true (ground arith, ground arith) (ground arith, ground arith)
        (ground arith, ground arith)

  Shows-unavailable : r.overall ≡ unavailable → Shows r false
  Shows-unavailable h =
      let o = overall_of_report v r built in
      Shows-each r false (ground arith, ground arith) (ground arith, ground arith)
        (ground arith, ground arith)

  ready_of : Shows r true → r.overall ≡ ready
  ready_of f =
      let o = overall_of_report v r built in
      ground (
        arith,
        f read economy,
        f write economy,
        f read memory,
        f write memory,
        f read knowledge,
        f write knowledge,
      )

  unavailable_of : Shows r false → r.overall ≡ unavailable
  unavailable_of f =
      let o = overall_of_report v r built in
      ground (
        arith,
        f read economy,
        f write economy,
        f read memory,
        f write memory,
        f read knowledge,
        f write knowledge,
      )

-- The overall readiness of a report is READY exactly when every capability can be read and written,
-- and UNAVAILABLE exactly when none can be read or written.
pub overall_iff :
    (v : Value) (r : KbReport)
    → build_kb_readiness v ≡ ok r
    → (r.overall ≡ ready ↔ Shows r true) × (r.overall ≡ unavailable ↔ Shows r false)
overall_iff v r h =
    ((Shows-ready v r h, ready_of v r h), (Shows-unavailable v r h, unavailable_of v r h))
