-- ===== src/Bankroll/Tests.antt =====
-- Runs of backend/src/polycopy/bankroll.py at concrete accounts.
use poly.Prelude.{◌≡◌, refl, false, some, none, [], pos, ◌<ℤ◌, ◌+ℤ◌, ◌-ℤ◌, arith}
use poly.Bankroll.{BankrollSettings, Bankroll, get_bankroll_account, sweep_profit_if_due}
use poly.Bankroll.Sweep.{Swept, sweep_profit_if_due-Swept}

abbrev test_settings : BankrollSettings
test_settings = record {
  starting_bankroll_usd = pos 1000;
  profit_limit_usd = pos 100;
  stop_loss_floor_usd = pos 0;
}

abbrev test_empty : Bankroll
test_empty = record { account = none; ledger = []; decisions = [] }

-- A profit of 150 above the limit of 100.
abbrev test_profit : Bankroll
test_profit = record {
  account = some (record {
    starting_bankroll_usd = pos 1000;
    realized_pnl_total = pos 150;
    withdrawn_total = pos 0;
    profit_limit_usd = some (pos 100);
    stop_loss_floor_usd = some (pos 0);
    sweep_pending = false;
  });
  ledger = [];
  decisions = [];
}

test_partial : (sweep_profit_if_due test_settings (pos 1050) test_profit).1 ≡ pos 100
unfolding sweep_profit_if_due ◌+ℤ◌ ◌-ℤ◌
test_partial = refl

test_moves : pos 0 <ℤ (sweep_profit_if_due test_settings (pos 1050) test_profit).1
unfolding sweep_profit_if_due ◌+ℤ◌ ◌-ℤ◌
test_moves = omega arith

sweep_profit_if_due-Swept_example :
    let (b, amount) = sweep_profit_if_due test_settings (pos 1050) test_profit in
    Swept
      (pos 1050)
      (get_bankroll_account test_settings test_profit)
      (get_bankroll_account test_settings b)
      amount
sweep_profit_if_due-Swept_example = sweep_profit_if_due-Swept test_settings (pos 1050) test_profit
