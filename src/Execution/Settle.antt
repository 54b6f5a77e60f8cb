-- ===== src/Execution/Settle.antt =====
-- `settle_paper_positions` of backend/src/polycopy/execution/service.py. A market has at most one
-- settlement row.
use poly.Prelude.{
  ℕ, ◌+◌, Bool, Option, none, some, List, [], ◌∷◌, ◌++◌, ◌==◌, if◌then◌else◌, ℤ, pos, ◌+ℤ◌, ◌-ℤ◌,
  ◌*ℤ◌,
}
use poly.Decimals.{Decimals}
use poly.Bankroll.{Bankroll, post_realized_pnl}
use poly.Execution.Store.{Position, Settlement, LogEntry, Store, Settings, find, is_open}

pub record SettleStats : Type 0 where
  pub settled : ℕ
  pub winners : ℕ
  pub losers : ℕ

-- The settlement that the query joins to a position: the position is open and its market resolved.
unfoldable pub due : List Settlement → Position → Option Settlement
unfolding find is_open
due settlements p =
    if is_open p then find (λ (t : Settlement). t.market_id == p.market_id) settlements else none

-- `qty * (settle_price - avg)`
unfoldable pub settlement_pnl : ℕ → Settlement → Position → ℤ
settlement_pnl one t p =
    let settle_price = if p.outcome == t.winning_outcome then one else 0 in
    pos p.quantity *ℤ (pos settle_price -ℤ pos p.avg_price)

unfoldable pub settle_position : ℕ → ℕ → Settlement → Position → Position
unfolding settlement_pnl
settle_position one now t p = record p {
  settlement_realized_pnl = some (settlement_pnl one t p);
  realized_pnl = p.realized_pnl +ℤ settlement_pnl one t p;
  quantity = 0;
  settled_at = some now;
}

-- What the loop changes.
pub record Settling : Type 0 where
  pub positions : List Position
  pub bankroll : Bankroll
  pub log : List LogEntry
  pub stats : SettleStats

abbrev count_settled : Bool → SettleStats → SettleStats
count_settled won s = record {
  settled = s.settled + 1;
  winners = if won then s.winners + 1 else s.winners;
  losers = if won then s.losers else s.losers + 1;
}

-- One round of the loop: on a row of the query, and on a position that the query leaves out.
unfoldable pub settle_one :
    Decimals → Settings → ℕ → Position → Option Settlement → Settling → Settling
unfolding settle_position settlement_pnl post_realized_pnl
settle_one d st now p none r = record r { positions = r.positions ++ (p ∷ []) }
settle_one d st now p (some t) r = record {
  positions = r.positions ++ (settle_position d.one now t p ∷ []);
  bankroll = (post_realized_pnl st.bankroll (settlement_pnl d.one t p) r.bankroll).0;
  log = r.log ++ (LogEntry.paper_position_settled p.market_id p.outcome ∷ []);
  stats = count_settled (p.outcome == t.winning_outcome) r.stats;
}

unfoldable pub settle_rows :
    Decimals → Settings → ℕ → List Settlement → List Position → Settling → Settling
unfolding settle_one due
settle_rows d st now settlements [] r = r
settle_rows d st now settlements (p ∷ ps) r =
    settle_rows d st now settlements ps (settle_one d st now p (due settlements p) r)

unfoldable pub settle_paper_positions : Decimals → Settings → ℕ → Store → Store × SettleStats
unfolding settle_rows
settle_paper_positions d st now db =
    let r = settle_rows d st now db.settlements db.positions (record {
      positions = [];
      bankroll = db.bankroll;
      log = db.log;
      stats = record { settled = 0; winners = 0; losers = 0 };
    }) in
    (record db { positions = r.positions; bankroll = r.bankroll; log = r.log }, r.stats)
