-- ===== src/Execution/Signals.antt =====
-- `detect_signals` of backend/src/polycopy/execution/service.py: the query over trades and wallets,
-- and the signals that it adds. The database gives a new row its id, which is the argument `fresh`.
-- Rows with equal keys come in the order of the table, one of the orders that the query allows.
use poly.Prelude.{
  ℕ, Bool, false, not, ◌&&◌, ◌||◌, none, some, List, [], ◌∷◌, ◌++◌, leb, ◌==◌, if◌then◌else◌,
  filter, take, length,
}
use poly.Execution.Store.{Wallet, Trade, Signal, SignalStatus, Store, Settings, find}
use poly.Execution.Gates.{is_approved}

-- `ORDER BY key`
unfoldable pub insert_by {ℓ} : {A : Type ℓ} → (A → ℕ) → A → List A → List A
insert_by key x [] = x ∷ []
insert_by key x (y ∷ ys) = if leb (key x) (key y) then x ∷ y ∷ ys else y ∷ insert_by key x ys

unfoldable pub order_by {ℓ} : {A : Type ℓ} → (A → ℕ) → List A → List A
unfolding insert_by
order_by key [] = []
order_by key (x ∷ xs) = insert_by key x (order_by key xs)

unfoldable pub already_signaled : Trade → List Signal → Bool
already_signaled t [] = false
already_signaled t (s ∷ ss) = s.source_trade_id == t.polymarket_trade_id || already_signaled t ss

-- The wallet is approved, and the trade was made and ingested at or after that approval.
copies : Trade → Wallet → Bool
unfolding is_approved
copies t w = is_approved w.approval_state && elim w.approved_at [
  | none ↦ false
  | some since ↦ leb since t.traded_at && leb since t.ingested_at
]

-- The conditions of the query on a trade.
unfoldable pub is_copyable : Store → Trade → Bool
unfolding find copies already_signaled
is_copyable db t =
    elim (find (λ (w : Wallet). w.id == t.wallet_id) db.wallets) [
      | none ↦ false
      | some w ↦ copies t w
    ]
    && not (already_signaled t db.signals)

unfoldable pub new_rows : Settings → Store → List Trade
unfolding order_by is_copyable
new_rows st db =
    take st.signal_detection_batch_size
      (order_by (λ t. t.ingested_at) (filter (is_copyable db) db.trades))

abbrev pub signal_of : ℕ → Trade → Signal
signal_of id t = record {
  id = id;
  wallet_id = t.wallet_id;
  market_id = t.market_id;
  source_trade_id = t.polymarket_trade_id;
  asset_id = t.asset_id;
  side = t.side;
  outcome = t.outcome;
  source_price = t.price;
  status = SignalStatus.pending;
  kill_switch_deferrals = 0;
  t0_traded_at = t.traded_at;
  t1_detected_at = t.ingested_at;
}

-- The loop over the rows.
unfoldable pub add_signals : (List Signal → ℕ) → List Trade → List Signal → List Signal
add_signals fresh [] signals = signals
add_signals fresh (t ∷ ts) signals =
    add_signals fresh ts (signals ++ (signal_of (fresh signals) t ∷ []))

unfoldable pub detect_signals : (List Signal → ℕ) → Settings → Store → Store × ℕ
unfolding new_rows add_signals
detect_signals fresh st db =
    let rows = new_rows st db in
    (record db { signals = add_signals fresh rows db.signals }, length rows)
