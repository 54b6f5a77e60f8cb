-- ===== src/Execution/Columns.antt =====
-- What the NUMERIC columns of backend/src/polycopy/models.py keep of the rows that a cycle commits. How
-- the database rounds to the scale of a column is an argument. A session does not expire its rows at a
-- commit, but it holds none of these after it, and the next read takes the columns' values.
use poly.Prelude.{ℕ, Option, none, some, map, ℤ}
use poly.Bankroll.{BankrollAccount, BankrollLedgerEntry}
use poly.Execution.Store.{PaperOrder, Position, Store}

-- The rounding of shares, of prices, of fees and of dollars.
pub record Columns : Type 0 where
  pub shares : ℕ → ℕ
  pub price : ℕ → ℕ
  pub fee : ℕ → ℕ
  pub money : ℤ → ℤ

abbrev nullable : {A : Type 0} → (A → A) → Option A → Option A
nullable f none = none
nullable f (some a) = some (f a)

abbrev pub stored_position : Columns → Position → Position
stored_position c p = record p {
  quantity = c.shares p.quantity;
  avg_price = c.price p.avg_price;
  realized_pnl = c.money p.realized_pnl;
  settlement_realized_pnl = nullable c.money p.settlement_realized_pnl;
}

abbrev pub stored_order : Columns → PaperOrder → PaperOrder
stored_order c o = record o {
  size = c.shares o.size;
  price = c.price o.price;
  fee = nullable c.fee o.fee;
  realized_pnl_delta = nullable c.money o.realized_pnl_delta;
}

abbrev pub stored_account : Columns → BankrollAccount → BankrollAccount
stored_account c a = record a {
  starting_bankroll_usd = c.money a.starting_bankroll_usd;
  realized_pnl_total = c.money a.realized_pnl_total;
  withdrawn_total = c.money a.withdrawn_total;
  profit_limit_usd = nullable c.money a.profit_limit_usd;
  stop_loss_floor_usd = nullable c.money a.stop_loss_floor_usd;
}

abbrev pub stored_entry : Columns → BankrollLedgerEntry → BankrollLedgerEntry
stored_entry c e = record e { amount = c.money e.amount; balance_after = c.money e.balance_after }

-- What a commit leaves of a store.
unfoldable pub stored : Columns → Store → Store
stored c db = record db {
  positions = map (stored_position c) db.positions;
  orders = map (stored_order c) db.orders;
  bankroll = record db.bankroll {
    account = nullable (stored_account c) db.bankroll.account;
    ledger = map (stored_entry c) db.bankroll.ledger;
  };
}
