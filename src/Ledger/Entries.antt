-- ===== src/Ledger/Entries.antt =====
-- What the entry of a journal does to the wallets and the other tables.
use new_humans.Prelude.{
  ◌>>◌, fail_if, guarded, check_violation, ap, suc, String, Bool, true, false, List, [], ◌∷◌,
  Option, none, some, ok, ◌==◌, ◌≡◌, refl, sym, ◌∙◌, subst, if◌then◌else◌, >>=-eq-ok, ok_inj,
  some_inj, eq_iff,
}
use new_humans.Prelude.Int.{ℤ, pos, ◌+ℤ◌, ltb_ℤ, zero-+ℤ, int_laws}
use new_humans.Ledger.Rows.{
  Wallet, Account, entity_wallet, system, Posting, JournalType, Journal, Ledger, find_journal,
}
use new_humans.Ledger.Journals.{
  Entered, add_to_wallet, apply_posting, insert_postings, create_balanced_journal, set_wallet,
  assert_existing_journal_matches, is_zero, enter, new_journal,
}

abbrev pub is_wallet : String → Account → Bool
is_wallet e (entity_wallet k) = e == k
is_wallet e (system _) = false

-- What the postings add to one wallet, and in all.
unfoldable pub wallet_total : String → List Posting → ℤ
wallet_total e [] = pos 0
wallet_total e (p ∷ ps) =
    let rest = wallet_total e ps in if is_wallet e p.account then p.amount +ℤ rest else rest

unfoldable pub sum : List Posting → ℤ
sum [] = pos 0
sum (p ∷ ps) = p.amount +ℤ sum ps

-- The wallet of `e` before, when it is `w` afterwards: `x` was added, and nothing else.
pub record Added (ws : String → Option Wallet) (e : String) (w : Wallet) (x : ℤ) : Type 0 where
  pub before : Wallet
  pub found : ws e ≡ some before
  pub balance : w.posted_balance ≡ before.posted_balance +ℤ x
  pub frozen : w.frozen ≡ before.frozen

same_wallet :
    (ws ws' : String → Option Wallet) (e : String) (w : Wallet)
    → ws ≡ ws'
    → ws' e ≡ some w
    → Added ws e w (pos 0)
same_wallet ws ws' e w same f = record {
  before = w;
  found = ap (λ v. v e) same ∙ f;
  balance = omega int_laws;
  frozen = refl;
}

set_or_kept :
    (ws : String → Option Wallet) (k : String) (v : Wallet) (x : ℤ) (e : String) (w : Wallet)
    → (b : Bool) → (e == k) ≡ b
    → ws k ≡ some v
    → (if b then some (record v { posted_balance = v.posted_balance +ℤ x }) else ws e) ≡ some w
    → Added ws e w (if b then x else pos 0)
set_or_kept ws k v x e w true same g f = record {
  before = v;
  found = (rw ((eq_iff e k).0 same) g);
  balance = ap (λ u. u.posted_balance) (sym (some_inj f));
  frozen = ap (λ u. u.frozen) (sym (some_inj f));
}
set_or_kept ws k v x e w false other g f = same_wallet ws ws e w refl f

set_wallet-Added :
    (ws : String → Option Wallet) (k : String) (v : Wallet) (x : ℤ) (e : String) (w : Wallet)
    → ws k ≡ some v
    → set_wallet k (record v { posted_balance = v.posted_balance +ℤ x }) ws e ≡ some w
    → Added ws e w (if e == k then x else pos 0)
set_wallet-Added ws k v x e w g f = set_or_kept ws k v x e w (e == k) refl g f

add_to_wallet-set :
    (k : String) (x : ℤ) (ws ws' : String → Option Wallet) (o : Option Wallet)
    → add_to_wallet k x ws o ≡ ok ws'
    → (v : Wallet) × (o ≡ some v)
      × (set_wallet k (record v { posted_balance = v.posted_balance +ℤ x }) ws ≡ ws')
unfolding add_to_wallet
add_to_wallet-set k x ws ws' none h = cc
add_to_wallet-set k x ws ws' (some v) h =
    (v, refl, ok_inj (guarded (ltb_ℤ (v.posted_balance +ℤ x) (pos 0)) check_violation _ h))

apply_posting-Added :
    (a : Account) (x : ℤ) (ws ws' : String → Option Wallet)
    → apply_posting a x ws ≡ ok ws'
    → (e : String) (w : Wallet) → ws' e ≡ some w
    → Added ws e w (if is_wallet e a then x else pos 0)
unfolding apply_posting
apply_posting-Added (system _) x ws ws' h e w f = same_wallet ws ws' e w (ok_inj h) f
apply_posting-Added (entity_wallet k) x ws ws' h e w f =
    let (v, g, set) = add_to_wallet-set k x ws ws' (ws k) h in
    set_wallet-Added ws k v x e w g (ap (λ u. u e) set ∙ f)

Added-twice :
    (ws us : String → Option Wallet) (e : String) (w : Wallet) (x y : ℤ) (a : Added us e w y)
    → Added ws e a.before x
    → Added ws e w (x +ℤ y)
Added-twice ws us e w x y a b = record {
  before = b.before;
  found = b.found;
  balance = rw (a.balance, b.balance) (omega int_laws);
  frozen = a.frozen ∙ b.frozen;
}

Added-next :
    (ws us : String → Option Wallet) (e : String) (w : Wallet) (b : Bool) (x y : ℤ)
    → (a : Added us e w y) → Added ws e a.before (if b then x else pos 0)
    → Added ws e w (if b then x +ℤ y else y)
Added-next ws us e w true x y a b = Added-twice ws us e w x y a b
Added-next ws us e w false x y a b = rw zero-+ℤ at (Added-twice ws us e w (pos 0) y a b)

-- A wallet after some postings is the wallet before them, with their total added to its balance.
pub insert_postings-Added :
    (ps : List Posting) (ws ws' : String → Option Wallet)
    → insert_postings ps ws ≡ ok ws'
    → (e : String) (w : Wallet) → ws' e ≡ some w
    → Added ws e w (wallet_total e ps)
unfolding insert_postings wallet_total
insert_postings-Added [] ws ws' h e w f = same_wallet ws ws' e w (ok_inj h) f
insert_postings-Added (p ∷ ps) ws ws' h e w f =
    let (us, g, rest) = >>=-eq-ok (fail_if _ _ >> apply_posting p.account p.amount ws) _ h in
    let applied = guarded (is_zero p.amount) check_violation _ g in
    let later = insert_postings-Added ps us ws' rest e w f in
    let now = apply_posting-Added p.account p.amount ws us applied e later.before later.found in
    Added-next ws us e w (is_wallet e p.account) p.amount (wallet_total e ps) later now

-- No wallet is made by a posting, and none without a row is posted to.
unfoldable pub Unposted : (String → Option Wallet) → String → ℤ → Type 0
Unposted ws e x = (ws e ≡ none) × (x ≡ pos 0)

set_none :
    (ws : String → Option Wallet) (k : String) (v w : Wallet) (x : ℤ) (e : String) (b : Bool)
    → (if b then some w else ws e) ≡ none
    → Unposted ws e (if b then x else pos 0)
unfolding Unposted
set_none ws k v w x e true f = cc
set_none ws k v w x e false f = (f, refl)

apply_posting-none :
    (a : Account) (x : ℤ) (ws ws' : String → Option Wallet)
    → apply_posting a x ws ≡ ok ws'
    → (e : String) → ws' e ≡ none
    → Unposted ws e (if is_wallet e a then x else pos 0)
unfolding apply_posting Unposted
apply_posting-none (system _) x ws ws' h e f = (ap (λ v. v e) (ok_inj h) ∙ f, refl)
apply_posting-none (entity_wallet k) x ws ws' h e f =
    let (v, _, set) = add_to_wallet-set k x ws ws' (ws k) h in
    set_none ws k v _ x e (e == k) (ap (λ u. u e) set ∙ f)

Unposted-next :
    (ws : String → Option Wallet) (e : String) (b : Bool) (x y : ℤ)
    → y ≡ pos 0
    → Unposted ws e (if b then x else pos 0)
    → Unposted ws e (if b then x +ℤ y else y)
unfolding Unposted
Unposted-next ws e true x y f g = (g.0, rw (f, g.1) (omega int_laws))
Unposted-next ws e false x y f g = (g.0, f)

pub insert_postings-none :
    (ps : List Posting) (ws ws' : String → Option Wallet)
    → insert_postings ps ws ≡ ok ws'
    → (e : String) → ws' e ≡ none
    → Unposted ws e (wallet_total e ps)
unfolding insert_postings wallet_total Unposted
insert_postings-none [] ws ws' h e f = (ap (λ v. v e) (ok_inj h) ∙ f, refl)
insert_postings-none (p ∷ ps) ws ws' h e f =
    let (us, g, rest) = >>=-eq-ok (fail_if _ _ >> apply_posting p.account p.amount ws) _ h in
    let applied = guarded (is_zero p.amount) check_violation _ g in
    let (before, nothing) = insert_postings-none ps us ws' rest e f in
    Unposted-next ws e (is_wallet e p.account) p.amount (wallet_total e ps) nothing
      (apply_posting-none p.account p.amount ws us applied e before)

-- The ledger after a new journal.
abbrev pub with_journal :
    Ledger → String → JournalType → List Posting → (String → Option Wallet) → Ledger
with_journal l key kind ps ws = record l {
  wallets = ws;
  journals =
      record { journal_id = l.next_id; business_key = key; journal_type = kind; postings = ps }
      ∷ l.journals;
  next_id = suc l.next_id;
}

-- A journal is found under its key, and nothing changes, or its postings are entered.
pub data Entry (l : Ledger) (key : String) (kind : JournalType) (ps : List Posting)
    : Entered → Ledger → Type 0 where
  found :
      {j : Journal} {d : Entered}
      → find_journal key l.journals ≡ some j
      → d.journal_id ≡ j.journal_id
      → d.replayed ≡ true
      → Entry l key kind ps d l
  written :
      {ws : String → Option Wallet} {d : Entered}
      → find_journal key l.journals ≡ none
      → insert_postings ps l.wallets ≡ ok ws
      → d.journal_id ≡ l.next_id
      → d.replayed ≡ false
      → Entry l key kind ps d (with_journal l key kind ps ws)

enter-Entry :
    (l : Ledger) (key : String) (kind : JournalType) (ps : List Posting) (o : Option Journal)
    → (d : Entered) (l' : Ledger) → find_journal key l.journals ≡ o
    → enter l key kind ps o ≡ ok (d, l')
    → Entry l key kind ps d l'
unfolding enter new_journal
enter-Entry l key kind ps none d l' f h =
    let (ws, moved, e) = >>=-eq-ok (insert_postings ps l.wallets) _ h in
    subst (λ q. Entry l key kind ps q.0 q.1) (ok_inj e) (written f moved refl refl)
enter-Entry l key kind ps (some j) d l' f h =
    let (_, _, e) = >>=-eq-ok (assert_existing_journal_matches j kind ps) _ h in
    subst (λ q. Entry l key kind ps q.0 q.1) (ok_inj e) (found f refl refl)

pub create-Entry :
    (l : Ledger) (key : String) (kind : JournalType) (ps : List Posting) (d : Entered) (l' : Ledger)
    → create_balanced_journal l key kind ps ≡ ok (d, l')
    → Entry l key kind ps d l'
unfolding create_balanced_journal
create-Entry l key kind ps d l' h =
    enter-Entry l key kind ps (find_journal key l.journals) d l' refl h

pub Entry-reservations :
    {l l' : Ledger} {key : String} {kind : JournalType} {ps : List Posting} {d : Entered}
    → Entry l key kind ps d l'
    → l'.reservations ≡ l.reservations
Entry-reservations (found f i r) = refl
Entry-reservations (written f moved i r) = refl
