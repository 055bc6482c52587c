-- ===== src/Ledger/Transfers.antt =====
-- `mint` and `transfer` of src/services/economy.js. A transaction that throws is rolled back, so an
-- error returns no ledger.
use new_humans.Prelude.{
  ℕ, String, Bool, false, not, List, [], ◌∷◌, Option, none, some, Result, ok, fail_if, ◌>>◌, ◌>>=◌,
  ◌==◌, ◌||◌, if◌then◌else◌, invalid_amount, invalid_transfer, forbidden, insufficient_energy,
}
use new_humans.Prelude.Int.{ℤ, pos, ◌-ℤ◌, leb_ℤ, ltb_ℤ}
use new_humans.Js.Json.{◌<>◌}
use new_humans.Energy.{Amount, parse_micro_e}
use new_humans.Core.Events.{append_event}
use new_humans.Ledger.Rows.{
  Account, entity_wallet, system, Posting, mints, transfers, Entity, Ledger, lock_wallet,
}
use new_humans.Ledger.Journals.{Entered, create_balanced_journal}

abbrev pub wallet_event : String → String → String → Ledger → Ledger
wallet_event id event_type actor l = record l {
  events = append_event "WALLET" id event_type (some actor) l.events;
}

abbrev pub has_type : String → Option Entity → Bool
has_type kind none = false
has_type kind (some e) = e.entity_type == kind

-- `-amount`.
abbrev pub minus : ℤ → ℤ
minus x = pos 0 -ℤ x

abbrev pub moved : String → Account → ℤ → List Posting
moved from to x =
    record { account = entity_wallet from; amount = minus x }
    ∷ record { account = to; amount = x }
    ∷ []

pub record Receipt : Type 0 where
  pub journal_id : ℕ
  pub amount : ℤ
  pub replayed : Bool

-- `if (!journal.replayed) await appendEvent(…)`.
abbrev pub receipt : ℤ → (Ledger → Ledger) → Entered × Ledger → Receipt × Ledger
receipt x announce (j, l) = (
  record { journal_id = j.journal_id; amount = x; replayed = j.replayed },
  if j.replayed then l else announce l,
)

pub record Mint : Type 0 where
  pub target_entity_id : String
  pub amount : Amount
  pub basis_key : String
  pub actor_entity_id : String

abbrev pub mint_postings : String → ℤ → List Posting
mint_postings target x =
    record { account = system "TREASURY_CONTROL"; amount = minus x }
    ∷ record { account = entity_wallet target; amount = x }
    ∷ []

unfoldable pub mint : Ledger → Mint → Result (Receipt × Ledger)
mint l m = do
  x ← parse_micro_e m.amount
  fail_if (leb_ℤ x (pos 0)) invalid_amount
  fail_if (not (has_type "SYSTEM" (l.entities m.actor_entity_id))) forbidden
  _ ← lock_wallet l m.target_entity_id
  j ← create_balanced_journal l ("mint:" <> m.basis_key) mints (mint_postings m.target_entity_id x)
  ok (receipt x (wallet_event m.target_entity_id "ENERGY_MINTED" m.actor_entity_id) j)

pub record Transfer : Type 0 where
  pub from_entity_id : String
  pub to_entity_id : String
  pub amount : Amount
  pub business_key : String
  pub actor_entity_id : String

abbrev pub transfer_events : Transfer → Ledger → Ledger
transfer_events t l =
    wallet_event t.to_entity_id "ENERGY_TRANSFERRED_IN" t.actor_entity_id
      (wallet_event t.from_entity_id "ENERGY_TRANSFERRED_OUT" t.actor_entity_id l)

-- The two wallets are locked in the order of their identifiers, which decides only which lock waits.
unfoldable pub transfer : Ledger → Transfer → Result (Receipt × Ledger)
transfer l t = do
  x ← parse_micro_e t.amount
  fail_if (leb_ℤ x (pos 0) || t.from_entity_id == t.to_entity_id) invalid_transfer
  fail_if (not (t.actor_entity_id == t.from_entity_id)) forbidden
  from ← lock_wallet l t.from_entity_id
  _ ← lock_wallet l t.to_entity_id
  fail_if (ltb_ℤ from.available_micro_e x) insufficient_energy
  j ←
      create_balanced_journal l ("transfer:" <> t.business_key) transfers
        (moved t.from_entity_id (entity_wallet t.to_entity_id) x)
  ok (receipt x (transfer_events t) j)
