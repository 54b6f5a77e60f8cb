-- ===== src/Bankroll/Ledger.antt =====
-- The account statement of backend/src/polycopy/bankroll.py agrees with the account.
use poly.Prelude.{
  ◌≡◌, refl, Bool, Option, none, some, List, [], ◌∷◌, ◌++◌, ℤ, pos, ◌+ℤ◌, ◌-ℤ◌, int_laws, sum_ℤ,
  sum_ℤ-append, eqb_ℤ, ◌∙◌, ap, sym, if_case, ltb_ℤ,
}
use poly.Bankroll.{
  BankrollAccount, balance, unwithdrawn_profit, EntryType, BankrollLedgerEntry, BankrollSettings,
  Bankroll, get_bankroll_account, post_realized_pnl, withdraw_profit, sweep_profit_if_due,
  update_bankroll_settings,
}
use poly.Bankroll.Outcomes.{sweep_cases}

abbrev moved : List BankrollLedgerEntry → ℤ
moved = sum_ℤ (λ e. e.amount)

-- The entry of each row is the balance before it, plus its amount.
abbrev IsStatement : ℤ → List BankrollLedgerEntry → Type 0
IsStatement opening [] = Unit
IsStatement opening (e ∷ es) =
    (e.balance_after ≡ opening +ℤ e.amount) × IsStatement e.balance_after es

-- The balance is the opening one and all the movements of the ledger, and each row shows the balance
-- that it left.
abbrev Books : ℤ → ℤ → List BankrollLedgerEntry → Type 0
Books opening now ledger = (now ≡ opening +ℤ moved ledger) × IsStatement opening ledger

abbrev pub Reconciles : BankrollSettings → Bankroll → Type 0
Reconciles s b =
    let a = get_bankroll_account s b in Books a.starting_bankroll_usd (balance a) b.ledger

regroup_right : (a b c : ℤ) → (a +ℤ b) +ℤ c ≡ a +ℤ (b +ℤ c)
regroup_right a b c = omega int_laws

add_zero : (a : ℤ) → a +ℤ pos 0 ≡ a
add_zero a = omega int_laws

regroup : (opening x rest z : ℤ) → z ≡ opening +ℤ x → opening +ℤ (x +ℤ rest) ≡ z +ℤ rest
regroup opening x rest z h = rw h (omega int_laws)

IsStatement-snoc :
    (opening : ℤ) (es : List BankrollLedgerEntry) (e : BankrollLedgerEntry)
    → IsStatement opening es
    → e.balance_after ≡ (opening +ℤ moved es) +ℤ e.amount
    → IsStatement opening (es ++ (e ∷ []))
IsStatement-snoc opening [] e h k = (k ∙ ap (λ z. z +ℤ e.amount) (add_zero opening), tt)
IsStatement-snoc opening (x ∷ es) e h k = (
  h.0,
  IsStatement-snoc x.balance_after es e h.1
      (k ∙ ap (λ z. z +ℤ e.amount) (regroup opening x.amount (moved es) x.balance_after h.0)),
)

moved-snoc :
    (es : List BankrollLedgerEntry) (e : BankrollLedgerEntry)
    → moved (es ++ (e ∷ [])) ≡ moved es +ℤ e.amount
moved-snoc es e =
    sum_ℤ-append (λ e. e.amount) es (e ∷ []) ∙ ap (λ z. moved es +ℤ z) (add_zero e.amount)

-- A row whose amount is the change of the balance, and that shows the new balance, keeps the books.
Books-snoc :
    (opening now : ℤ) (es : List BankrollLedgerEntry) (e : BankrollLedgerEntry) (next : ℤ)
    → Books opening now es
    → next ≡ now +ℤ e.amount
    → e.balance_after ≡ next
    → Books opening next (es ++ (e ∷ []))
Books-snoc opening now es e next (total, rows) grown shown =
    let sum : next ≡ (opening +ℤ moved es) +ℤ e.amount = grown ∙ ap (λ z. z +ℤ e.amount) total in
    (
      sum
          ∙ regroup_right opening (moved es) e.amount
          ∙ ap (λ z. opening +ℤ z) (sym (moved-snoc es e)),
      IsStatement-snoc opening es e rows (shown ∙ sum),
    )

balance-realize :
    (a : BankrollAccount) (amount : ℤ)
    → balance (record a { realized_pnl_total = a.realized_pnl_total +ℤ amount })
      ≡ balance a +ℤ amount
unfolding balance
balance-realize a amount = omega int_laws

balance-withdraw :
    (a : BankrollAccount) (amount : ℤ) (pending : Bool)
    → balance (record a { withdrawn_total = a.withdrawn_total +ℤ amount; sweep_pending = pending })
      ≡ balance a +ℤ (pos 0 -ℤ amount)
unfolding balance
balance-withdraw a amount pending = omega int_laws

pub post_realized_pnl-Reconciles :
    (s : BankrollSettings) (amount : ℤ) (b : Bankroll)
    → Reconciles s b
    → Reconciles s (post_realized_pnl s amount b).0
unfolding post_realized_pnl get_bankroll_account
post_realized_pnl-Reconciles s amount b r =
    let a = get_bankroll_account s b in
    let a' : BankrollAccount = record a { realized_pnl_total = a.realized_pnl_total +ℤ amount } in
    let entry : BankrollLedgerEntry = record {
      entry_type = EntryType.realized_pnl;
      amount = amount;
      balance_after = balance a';
    } in
    if_case (λ (p : Bankroll × Option BankrollLedgerEntry). Reconciles s p.0) (eqb_ℤ amount (pos 0))
      (b, none) (record b { account = some a'; ledger = b.ledger ++ (entry ∷ []) }, some entry)
      (λ _. r)
      (λ _.
        Books-snoc a.starting_bankroll_usd (balance a) b.ledger entry (balance a') r
          (balance-realize a amount) refl)

withdraw_profit-Reconciles :
    (s : BankrollSettings) (limit amount : ℤ) (a : BankrollAccount) (b : Bankroll)
    → Books a.starting_bankroll_usd (balance a) b.ledger
    → Reconciles s (withdraw_profit limit amount a b)
unfolding withdraw_profit get_bankroll_account
withdraw_profit-Reconciles s limit amount a b r =
    let pending = ltb_ℤ amount (unwithdrawn_profit a) in
    let a' : BankrollAccount = record a {
      withdrawn_total = a.withdrawn_total +ℤ amount;
      sweep_pending = pending;
    } in
    Books-snoc a.starting_bankroll_usd (balance a) b.ledger
      (record {
        entry_type = EntryType.profit_withdrawal;
        amount = pos 0 -ℤ amount;
        balance_after = balance a';
      })
      (balance a') r (balance-withdraw a amount pending) refl

pub sweep_profit_if_due-Reconciles :
    (s : BankrollSettings) (cost : ℤ) (b : Bankroll)
    → Reconciles s b
    → Reconciles s (sweep_profit_if_due s cost b).0
sweep_profit_if_due-Reconciles s cost b r =
    sweep_cases s cost b (λ (p : Bankroll × ℤ). Reconciles s p.0)
      (λ pending. unfold get_bankroll_account balance in r)
      (λ limit amount pos_amount in_profit in_cash exact.
        withdraw_profit-Reconciles s limit amount (get_bankroll_account s b) b r)

-- One call of this component, in the order of a bot cycle or of an operator's request.
pub data Operation : Type 0 where
  post : ℤ → Operation
  sweep : ℤ → Operation
  update : Option ℤ → Option ℤ → Operation

apply : BankrollSettings → Operation → Bankroll → Bankroll
apply s (Operation.post amount) b = (post_realized_pnl s amount b).0
apply s (Operation.sweep cost) b = (sweep_profit_if_due s cost b).0
apply s (Operation.update limit floor) b = update_bankroll_settings s limit floor b

pub run : BankrollSettings → List Operation → Bankroll → Bankroll
unfolding apply
run s [] b = b
run s (op ∷ ops) b = run s ops (apply s op b)
