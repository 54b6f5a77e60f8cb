-- ===== src/Bankroll.antt =====
-- backend/src/polycopy/bankroll.py, the account and ledger rows of backend/src/polycopy/models.py and
-- `update_bankroll_settings` of backend/src/polycopy/api/routes.py. Dollars are signed counts of the
-- money unit of Decimals, exact as a session holds them before it commits; Execution/Columns has what
-- the columns keep. The singleton account row may be absent, which stands for the default row: a
-- read that inserts that row changes no value. Rows are appended to the ledger and to the decision
-- log. The cost of the open positions is an argument, computed in Execution. The row lock is what
-- makes each operation one step here.
pub mod Outcomes
pub mod Ledger
pub mod Sweep
mod Tests
use poly.Prelude.{
  ℕ, Bool, true, false, not, ◌&&◌, ◌||◌, Option, none, some, List, [], ◌∷◌, ◌++◌, if◌then◌else◌, ℤ,
  pos, ◌+ℤ◌, ◌-ℤ◌, ltb_ℤ, leb_ℤ, eqb_ℤ, max_ℤ, min_ℤ, or_else, is_some,
}

pub record BankrollAccount : Type 0 where
  pub starting_bankroll_usd : ℤ
  pub realized_pnl_total : ℤ
  pub withdrawn_total : ℤ
  pub profit_limit_usd : Option ℤ
  pub stop_loss_floor_usd : Option ℤ
  pub sweep_pending : Bool

-- The derived balance: never stored.
unfoldable pub balance : BankrollAccount → ℤ
balance a = (a.starting_bankroll_usd +ℤ a.realized_pnl_total) -ℤ a.withdrawn_total

pub data EntryType : Type 0 where
  realized_pnl profit_withdrawal : EntryType

pub record BankrollLedgerEntry : Type 0 where
  pub entry_type : EntryType
  pub amount : ℤ
  pub balance_after : ℤ

-- The decision-log rows of this component.
pub data Decision : Type 0 where
  profit_withdrawn : ℤ → ℤ → Bool → ℤ → Decision
  bankroll_settings_updated : Option ℤ → Option ℤ → Decision

pub record BankrollSettings : Type 0 where
  pub starting_bankroll_usd : ℤ
  pub profit_limit_usd : ℤ
  pub stop_loss_floor_usd : ℤ

pub record Bankroll : Type 0 where
  pub account : Option BankrollAccount
  pub ledger : List BankrollLedgerEntry
  pub decisions : List Decision

new_account : BankrollSettings → BankrollAccount
new_account s = record {
  starting_bankroll_usd = s.starting_bankroll_usd;
  realized_pnl_total = pos 0;
  withdrawn_total = pos 0;
  profit_limit_usd = some s.profit_limit_usd;
  stop_loss_floor_usd = some s.stop_loss_floor_usd;
  sweep_pending = false;
}

-- The account, and whether this call made it.
get_or_create_bankroll_account : BankrollSettings → Bankroll → BankrollAccount × Bool
unfolding new_account
get_or_create_bankroll_account s b = elim b.account [
  | none ↦ (new_account s, true)
  | some a ↦ (a, false)
]

unfoldable pub get_bankroll_account : BankrollSettings → Bankroll → BankrollAccount
unfolding get_or_create_bankroll_account
get_bankroll_account s b = (get_or_create_bankroll_account s b).0

unfoldable pub stop_loss_hit : BankrollAccount → Bool
unfolding balance
stop_loss_hit a = elim a.stop_loss_floor_usd [
  | none ↦ false
  | some floor ↦ ltb_ℤ (pos 0) floor && leb_ℤ (balance a) floor
]

unfoldable pub post_realized_pnl :
    BankrollSettings → ℤ → Bankroll → Bankroll × Option BankrollLedgerEntry
unfolding get_bankroll_account balance
post_realized_pnl s amount b =
    let a = get_bankroll_account s b in
    let a' = record a { realized_pnl_total = a.realized_pnl_total +ℤ amount } in
    let entry : BankrollLedgerEntry = record {
      entry_type = EntryType.realized_pnl;
      amount = amount;
      balance_after = balance a';
    } in
    if eqb_ℤ amount (pos 0)
    then (b, none)
    else (record b { account = some a'; ledger = b.ledger ++ (entry ∷ []) }, some entry)

-- `max(ZERO, realized_pnl_total - withdrawn_total)`
pub unwithdrawn_profit : BankrollAccount → ℤ
unwithdrawn_profit a = max_ℤ (pos 0) (a.realized_pnl_total -ℤ a.withdrawn_total)

-- The account and the two rows of a withdrawal of an amount.
pub withdraw_profit : ℤ → ℤ → BankrollAccount → Bankroll → Bankroll
unfolding balance unwithdrawn_profit
withdraw_profit limit amount a b =
    let partial = ltb_ℤ amount (unwithdrawn_profit a) in
    let a' = record a { withdrawn_total = a.withdrawn_total +ℤ amount; sweep_pending = partial } in
    let entry : BankrollLedgerEntry = record {
      entry_type = EntryType.profit_withdrawal;
      amount = pos 0 -ℤ amount;
      balance_after = balance a';
    } in
    record {
      account = some a';
      ledger = b.ledger ++ (entry ∷ []);
      decisions = b.decisions ++ (Decision.profit_withdrawn amount limit partial (balance a') ∷ []);
    }

-- The part below the limit tests: `limit` is positive.
pub sweep_account : ℤ → ℤ → BankrollAccount → Bankroll → Bankroll × ℤ
unfolding withdraw_profit
sweep_account cost limit a b =
    let unwithdrawn = unwithdrawn_profit a in
    let free_cash = max_ℤ (pos 0) (balance a -ℤ cost) in
    let amount = min_ℤ unwithdrawn free_cash in
    if leb_ℤ unwithdrawn (pos 0)
    then (record b { account = some (record a { sweep_pending = false }) }, pos 0)
    else if not a.sweep_pending && ltb_ℤ unwithdrawn limit
    then (record b { account = some a }, pos 0)
    else if leb_ℤ amount (pos 0)
    then (record b { account = some a }, pos 0)
    else (withdraw_profit limit amount a b, amount)

unfoldable pub sweep_profit_if_due : BankrollSettings → ℤ → Bankroll → Bankroll × ℤ
unfolding get_bankroll_account sweep_account
sweep_profit_if_due s cost b =
    let a = get_bankroll_account s b in
    let b' : Bankroll = record b { account = some a } in
    elim a.profit_limit_usd [
      | none ↦ (b', pos 0)
      | some limit ↦ if leb_ℤ limit (pos 0) then (b', pos 0) else sweep_account cost limit a b
    ]

-- `update_bankroll_settings`; the two optional fields of the request body.
pub update_bankroll_settings : BankrollSettings → Option ℤ → Option ℤ → Bankroll → Bankroll
unfolding get_bankroll_account
update_bankroll_settings s limit floor b =
    let a = get_bankroll_account s b in
    let a' = record a {
      profit_limit_usd = elim limit [ none ↦ a.profit_limit_usd | some v ↦ some v ];
      stop_loss_floor_usd = elim floor [ none ↦ a.stop_loss_floor_usd | some v ↦ some v ];
    } in
    let changed = is_some limit || is_some floor in
    record b {
      account = some a';
      decisions =
          if changed
          then b.decisions ++ (Decision.bankroll_settings_updated limit floor ∷ [])
          else b.decisions;
    }

record BankrollView : Type 0 where
  pub bankroll_balance_usd : ℤ
  pub unwithdrawn_profit_usd : ℤ
  pub open_cost_usd : ℤ
  pub available_cash_usd : ℤ
  pub stop_loss_hit : Bool

-- The computed fields of `bankroll_view`; the others are the account's own.
unfoldable bankroll_view : ℤ → BankrollAccount → BankrollView
unfolding balance unwithdrawn_profit stop_loss_hit
bankroll_view cost a = record {
  bankroll_balance_usd = balance a;
  unwithdrawn_profit_usd = unwithdrawn_profit a;
  open_cost_usd = cost;
  available_cash_usd = balance a -ℤ cost;
  stop_loss_hit = stop_loss_hit a;
}
