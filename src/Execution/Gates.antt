-- ===== src/Execution/Gates.antt =====
-- The gates of `execute_signal` in backend/src/polycopy/execution/service.py that stand in front of
-- the order book.
use poly.Prelude.{
  ℕ, ◌+◌, Bool, true, false, not, ◌&&◌, ◌||◌, Option, none, some, ltb, leb, ◌==◌, if◌then◌else◌, ℤ,
  pos, ◌-ℤ◌, leb_ℤ, lookup,
}
use poly.Bookwalk.{Side}
use poly.Bankroll.{balance, get_bankroll_account, stop_loss_hit}
use poly.Execution.Store.{
  ApprovalState, Wallet, Market, Signal, MissReason, Store, Settings, find, position_of,
  global_exposure, market_exposure,
}

-- `_assert_paper_mode` raises on the negation.
unfoldable pub is_paper_mode : Settings → Bool
is_paper_mode st = not (st.allow_live_trading || not st.paper_mode)

-- `_eligible_at`
unfoldable pub eligible_at : Settings → Signal → ℕ
eligible_at st s = s.t1_detected_at + st.review_delay

unfoldable pub is_stale_signal : Settings → Signal → ℕ → Bool
is_stale_signal st s now = ltb (s.t0_traded_at + st.max_signal_execution_age) now

unfoldable pub is_approved : ApprovalState → Bool
is_approved ApprovalState.approved = true
is_approved _ = false

-- The wallet is approved now, and the trade was made and seen after that approval.
allows_signal : Signal → Wallet → Bool
unfolding is_approved
allows_signal s w = is_approved w.approval_state && elim w.approved_at [
  | none ↦ false
  | some since ↦ leb since s.t0_traded_at && leb since s.t1_detected_at
]

pub wallet_allows : Store → Signal → Bool
unfolding find allows_signal
wallet_allows db s = elim (find (λ (w : Wallet). w.id == s.wallet_id) db.wallets) [
  | none ↦ false
  | some w ↦ allows_signal s w
]

-- The market of the signal, if it is there and not closed.
pub open_market : Store → Signal → Option Market
unfolding find
open_market db s = elim (find (λ (m : Market). m.id == s.market_id) db.markets) [
  | none ↦ none
  | some m ↦ if m.closed then none else some m
]

-- `signal.asset_id or market.clob_token_ids.get(signal.outcome)`
token_id : Signal → Market → Option ℕ
token_id s m = elim s.asset_id [ none ↦ lookup s.outcome m.clob_token_ids | some t ↦ some t ]

-- The quantity owned, which caps a SELL.
unfoldable pub owned : Store → Signal → ℕ
unfolding position_of
owned db s = (position_of s db.positions).quantity

unfoldable pub available_cash : Settings → Store → ℤ
unfolding get_bankroll_account balance global_exposure
available_cash st db =
    balance (get_bankroll_account st.bankroll db.bankroll) -ℤ pos (global_exposure db.positions)

-- The exposure caps at an additional cost.
unfoldable pub exceeds_caps : Settings → Store → Signal → ℕ → Bool
unfolding global_exposure market_exposure
exceeds_caps st db s cost =
    ltb st.max_exposure_global_usd (global_exposure db.positions + cost)
    || ltb st.max_exposure_per_market_usd (market_exposure s.market_id db.positions + cost)

pub side_gate : Settings → Store → Signal → Side → Option MissReason
unfolding owned exceeds_caps available_cash get_bankroll_account stop_loss_hit
side_gate st db s Side.sell = if owned db s == 0 then some MissReason.no_position_to_sell else none
side_gate st db s Side.buy =
    if exceeds_caps st db s st.max_order_size_usd
    then some MissReason.exposure_cap
    else if stop_loss_hit (get_bankroll_account st.bankroll db.bankroll)
    then some MissReason.bankroll_stop_loss
    else if leb_ℤ (available_cash st db) (pos 0)
    then some MissReason.bankroll_insufficient
    else none
side_gate st db s Side.other_side = none

-- The gates in their order: the reason of a miss, or the market and the token to trade.
pub data GateResult : Type 0 where
  miss : MissReason → GateResult
  pass : Market → ℕ → GateResult

unfoldable pub check_gates : Settings → Store → Signal → GateResult
unfolding wallet_allows open_market token_id side_gate
check_gates st db s =
    if not (wallet_allows db s)
    then GateResult.miss MissReason.wallet_not_approved
    else elim (open_market db s) [
      | none ↦ GateResult.miss MissReason.market_closed
      | some m ↦ elim (token_id s m) [
        | none ↦ GateResult.miss MissReason.no_token_for_outcome
        | some token ↦ elim (side_gate st db s s.side) [
          | some reason ↦ GateResult.miss reason
          | none ↦ GateResult.pass m token
        ]
      ]
    ]
