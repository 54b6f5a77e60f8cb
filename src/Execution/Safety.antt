-- ===== src/Execution/Safety.antt =====
-- What a fill of `execute_signal` of backend/src/polycopy/execution/service.py guarantees.
use poly.Prelude.{ℕ, ◌+◌, ◌≤◌, ◌≡◌, refl, Option, none, some, List, arith, pos, ◌≤ℤ◌, if_case}
use poly.Decimals.{Decimals}
use poly.Bookwalk.{BookLevel, Side, FillResult, WalkResult, walk_book, book_side}
use poly.Bookwalk.Fill.{fill_levels-FillOf, WithinCap}
use poly.Fees.{MarketInfo, FeeCurve}
use poly.Execution.Store.{
  Market, Signal, MissReason, PaperOrder, Store, Settings, global_exposure, market_exposure,
}
use poly.Execution.Gates.{owned, available_cash, exceeds_caps}
use poly.Execution.Trade.{
  Client, TradeError, TradePlan, Filled, plan_trade, plan_fill, plan_fee, check_cost, cost_of,
  is_buy, record_skip, record_fill, share_cap, parse_levels,
}
use poly.Execution.Handlers.{Outcome, has_order, commit_order, execute_signal}
use poly.Execution.Outcomes.{MayFill, execute_signal_cases}

-- An outcome that is a fill: an order that is not a miss.
abbrev pub IsFill : Outcome → Type 0
IsFill (Outcome.ordered o) = o.miss_reason ≡ none
IsFill _ = ⊥

-- What is there for the fill: shares for a SELL, room under the caps and free cash for a BUY.
abbrev pub Covered : Settings → Store → Signal → Side → Filled → Type 0
Covered st db s Side.sell f = f.size ≤ owned db s
Covered st db s Side.buy f =
    (global_exposure db.positions + cost_of f ≤ st.max_exposure_global_usd)
    × (market_exposure s.market_id db.positions + cost_of f ≤ st.max_exposure_per_market_usd)
    × (pos (cost_of f) ≤ℤ available_cash st db)
Covered st db s Side.other_side f = ⊥

commit_skip-not-IsFill :
    (db : Store) (s : Signal) (reason : MissReason) (now : ℕ)
    → ¬ (IsFill (commit_order db s (record_skip db s reason now)).1)
unfolding commit_order record_skip
commit_skip-not-IsFill db s reason now =
    if_case (λ (p : Store × Outcome). ¬ (IsFill p.1)) (has_order s.source_trade_id db.orders) _ _
      (λ _ h. h) (λ _ h. ground arith)

check_cost-fill :
    (st : Settings) (db : Store) (s : Signal) (f : Filled) {g : Filled}
    → check_cost st db s f ≡ TradePlan.fill g
    → f ≡ g
unfolding check_cost
check_cost-fill st db s f h = ground arith

check_cost-Covered :
    (st : Settings) (db : Store) (s : Signal) (f : Filled) {g : Filled}
    → s.side ≡ Side.buy
    → check_cost st db s f ≡ TradePlan.fill g
    → Covered st db s Side.buy f
unfolding check_cost is_buy exceeds_caps
check_cost-Covered st db s f buy h = ground arith

book_case :
    {A : Type 0} (o : Option A) (f : A → TradePlan) {g : Filled}
    → elim o [ none ↦ TradePlan.error TradeError.request_failed | some a ↦ f a ] ≡ TradePlan.fill g
    → (a : A) × (f a ≡ TradePlan.fill g)
book_case none f h = ground arith
book_case (some a) f h = (a, h)

walk_case :
    (w : WalkResult) (f : FillResult → TradePlan) {g : Filled}
    → elim w [
      | WalkResult.raised e ↦ TradePlan.error (TradeError.walk_error e)
      | WalkResult.walked r ↦ f r
    ]
      ≡ TradePlan.fill g
    → (r : FillResult) × (w ≡ WalkResult.walked r) × (f r ≡ TradePlan.fill g)
walk_case (WalkResult.raised e) f h = ground arith
walk_case (WalkResult.walked r) f h = (r, refl, h)

module _ (d : Decimals) (c : FeeCurve) where
  plan_fee-fill :
      (st : Settings) (db : Store) (s : Signal) (info : Option MarketInfo) (r : FillResult)
      (price : ℕ) {g : Filled}
      → plan_fee d c st db s info r price ≡ TradePlan.fill g
      → (g.size ≡ r.filled_size) × (check_cost st db s g ≡ TradePlan.fill g)
  unfolding plan_fee
  plan_fee-fill st db s info r price h = ground arith

  plan_fill-fill :
      (st : Settings) (db : Store) (s : Signal) (client : Client) (m : Market) (r : FillResult)
      {g : Filled}
      → plan_fill d c st db s client m r ≡ TradePlan.fill g
      → (g.size ≡ r.filled_size) × (check_cost st db s g ≡ TradePlan.fill g)
  unfolding plan_fill
  plan_fill-fill st db s client m r h =
      ground (arith, plan_fee-fill st db s (client.clob_market_info m.condition_id) r)

  -- What was walked for a fill, by the side.
  walked-Covered :
      (side : Side) (st : Settings) (db : Store) (s : Signal) (bids asks : List BookLevel)
      {r : FillResult} {g : Filled}
      → s.side ≡ side
      → walk_book d side st.max_order_size_usd bids asks (share_cap db s side) ≡ WalkResult.walked r
      → g.size ≡ r.filled_size
      → check_cost st db s g ≡ TradePlan.fill g
      → Covered st db s side g
  unfolding walk_book share_cap
  walked-Covered Side.buy st db s bids asks {g = g} e w size check =
      check_cost-Covered st db s g e check
  walked-Covered Side.sell st db s bids asks e w size check =
      let within : WithinCap (some (owned db s)) _ =
        (fill_levels-FillOf d st.max_order_size_usd (book_side d Side.sell bids asks)
          (some (owned db s))).1 in
      ground arith
  walked-Covered Side.other_side st db s bids asks e w size check = ground arith

  -- The plan of a fill is covered.
  plan_trade-Covered :
      (st : Settings) (db : Store) (s : Signal) (client : Client) (m : Market) (token : ℕ)
      {g : Filled}
      → plan_trade d c st db s client m token ≡ TradePlan.fill g
      → Covered st db s s.side g
  unfolding plan_trade
  plan_trade-Covered st db s client m token h =
      let cap = share_cap db s s.side in
      let ((raw_bids, raw_asks), h1) = book_case (client.order_book token) _ h in
      let bids = parse_levels d c raw_bids in
      let asks = parse_levels d c raw_asks in
      let (r, w, h2) =
        walk_case (walk_book d s.side st.max_order_size_usd bids asks cap)
          (plan_fill d c st db s client m) h1 in
      let (size, check) = plan_fill-fill st db s client m r h2 in
      walked-Covered s.side st db s bids asks refl w size check

  -- A signal is filled only in paper mode with live trading off and the kill switch off, while the
  -- trade that it copies is not too old and the review delay has passed, with its wallet approved
  -- since before the trade was made and seen, its market there and not closed, and the gate of its side open.
  pub execute_signal-MayFill :
      (st : Settings) (client : Client) (now : ℕ) (db : Store) (s : Signal)
      → IsFill (execute_signal d c st client now db s).1
      → MayFill st db s now
  execute_signal-MayFill st client now db s =
      execute_signal_cases d c st client now db s
        (λ (p : Store × Outcome). IsFill p.1 → MayFill st db s now) (λ e h. absurd h)
        (λ h. absurd h) (λ h. absurd h)
        (λ reason h. absurd (commit_skip-not-IsFill db s reason now h))
        (λ f m token may planned h. may)

  commit_fill-Covered :
      (st : Settings) (now : ℕ) (db : Store) (s : Signal) (f : Filled)
      → Covered st db s s.side f
      → IsFill (commit_order db s (record_fill d st db s f now)).1
      → (g : Filled) × Covered st db s s.side g
        × (commit_order db s (record_fill d st db s f now)
            ≡ ((record_fill d st db s g now).0, Outcome.ordered (record_fill d st db s g now).1))
  unfolding commit_order
  commit_fill-Covered st now db s f covered =
      let out : Store × PaperOrder = record_fill d st db s f now in
      if_case
        (λ (p : Store × Outcome).
          IsFill p.1
          → (g : Filled) × Covered st db s s.side g
            × (p ≡ (
              (record_fill d st db s g now).0,
              Outcome.ordered (record_fill d st db s g now).1,
            )))
        (has_order s.source_trade_id db.orders) (db, Outcome.failed TradeError.integrity_error)
        (out.0, Outcome.ordered out.1) (λ _ h. absurd h) (λ _ h. (f, covered, refl))

  -- A filled attempt has written exactly the rows of one fill, and that fill was covered: a SELL has
  -- not sold more shares than the position held, and the cost of a BUY, its fee included, was
  -- within both exposure caps and within the free cash of the bankroll.
  pub execute_signal-Covered :
      (st : Settings) (client : Client) (now : ℕ) (db : Store) (s : Signal)
      → IsFill (execute_signal d c st client now db s).1
      → (f : Filled) × Covered st db s s.side f
        × (execute_signal d c st client now db s
            ≡ ((record_fill d st db s f now).0, Outcome.ordered (record_fill d st db s f now).1))
  execute_signal-Covered st client now db s =
      execute_signal_cases d c st client now db s
        (λ (p : Store × Outcome).
          IsFill p.1
          → (f : Filled) × Covered st db s s.side f
            × (p ≡ (
              (record_fill d st db s f now).0,
              Outcome.ordered (record_fill d st db s f now).1,
            )))
        (λ e h. absurd h) (λ h. absurd h) (λ h. absurd h)
        (λ reason h. absurd (commit_skip-not-IsFill db s reason now h))
        (λ f m token may planned.
          commit_fill-Covered st now db s f (plan_trade-Covered st db s client m token planned))
