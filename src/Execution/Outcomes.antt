-- ===== src/Execution/Outcomes.antt =====
-- The ways an attempt of `execute_signal` of backend/src/polycopy/execution/service.py can end.
use poly.Prelude.{
  ℕ, ◌+◌, ◌≤◌, ◌≡◌, refl, true, false, not, none, some, arith, ltb, if◌then◌else◌, if_case,
}
use poly.Decimals.{Decimals}
use poly.Fees.{FeeCurve}
use poly.Execution.Store.{Market, Signal, MissReason, Store, Settings}
use poly.Execution.Gates.{
  GateResult, check_gates, is_paper_mode, eligible_at, is_stale_signal, wallet_allows, open_market,
  side_gate,
}
use poly.Execution.Trade.{
  Client, TradeError, TradePlan, Filled, plan_trade, record_skip, record_fill,
}
use poly.Execution.Handlers.{Outcome, commit_order, count_deferral, execute_signal}

-- The conditions under which a signal may be filled, at the time of the attempt.
pub record MayFill (st : Settings) (db : Store) (s : Signal) (now : ℕ) : Type 0 where
  pub paper : (st.paper_mode ≡ true) × (st.allow_live_trading ≡ false)
  pub kill_switch : st.order_kill_switch ≡ false
  pub fresh : now ≤ s.t0_traded_at + st.max_signal_execution_age
  pub reviewed : s.t1_detected_at + st.review_delay ≤ now
  pub allowed : wallet_allows db s ≡ true
  pub market_open : (m : Market) × (open_market db s ≡ some m)
  pub side_open : side_gate st db s s.side ≡ none

gates_case {ℓ κ} :
    {A : Type ℓ} (P : A → Type κ) (g : GateResult) (x : MissReason → A) (y : Market → ℕ → A)
    → ((reason : MissReason) → P (x reason))
    → ((m : Market) (token : ℕ) → g ≡ GateResult.pass m token → P (y m token))
    → P (elim g [ GateResult.miss reason ↦ x reason | GateResult.pass m token ↦ y m token ])
gates_case P (GateResult.miss reason) x y p q = p reason
gates_case P (GateResult.pass m token) x y p q = q m token refl

plan_case {ℓ κ} :
    {A : Type ℓ} (P : A → Type κ) (g : TradePlan) (x : TradeError → A) (y : MissReason → A)
    (z : Filled → A)
    → ((e : TradeError) → P (x e))
    → ((reason : MissReason) → P (y reason))
    → ((f : Filled) → g ≡ TradePlan.fill f → P (z f))
    → P (elim g [
      | TradePlan.error e ↦ x e
      | TradePlan.miss reason ↦ y reason
      | TradePlan.fill f ↦ z f
    ])
plan_case P (TradePlan.error e) x y z p q r = p e
plan_case P (TradePlan.miss reason) x y z p q r = q reason
plan_case P (TradePlan.fill f) x y z p q r = r f refl

check_gates-pass :
    (st : Settings) (db : Store) (s : Signal) {m : Market} {token : ℕ}
    → check_gates st db s ≡ GateResult.pass m token
    → (wallet_allows db s ≡ true) × (open_market db s ≡ some m) × (side_gate st db s s.side ≡ none)
unfolding check_gates
check_gates-pass st db s h = ground arith

paper_settings :
    (st : Settings)
    → not (is_paper_mode st) ≡ false
    → (st.paper_mode ≡ true) × (st.allow_live_trading ≡ false)
unfolding is_paper_mode
paper_settings st h = ground arith

fresh_signal :
    (st : Settings) (s : Signal) (now : ℕ)
    → is_stale_signal st s now ≡ false
    → now ≤ s.t0_traded_at + st.max_signal_execution_age
unfolding is_stale_signal
fresh_signal st s now h = ground arith

reviewed_signal :
    (st : Settings) (s : Signal) (now : ℕ)
    → ltb now (eligible_at st s) ≡ false
    → s.t1_detected_at + st.review_delay ≤ now
unfolding eligible_at
reviewed_signal st s now h = ground arith

-- An attempt fails and leaves the store, defers the signal, records a miss, or records a fill; the
-- last only when all the gates are passed and the trade is planned.
module _ (d : Decimals) (c : FeeCurve) where
  pub execute_signal_cases {ℓ} :
      (st : Settings) (client : Client) (now : ℕ) (db : Store) (s : Signal)
      (P : Store × Outcome → Type ℓ)
      → ((e : TradeError) → P (db, Outcome.failed e))
      → P (record db { signals = count_deferral s db.signals }, Outcome.deferred)
      → P (db, Outcome.deferred)
      → ((reason : MissReason) → P (commit_order db s (record_skip db s reason now)))
      → ((f : Filled) (m : Market) (token : ℕ)
          → MayFill st db s now
          → plan_trade d c st db s client m token ≡ TradePlan.fill f
          → P (commit_order db s (record_fill d st db s f now)))
      → P (execute_signal d c st client now db s)
  unfolding execute_signal
  execute_signal_cases st client now db s P fails counts waits skips fills =
      let skip : MissReason → Store × Outcome =
        λ reason. commit_order db s (record_skip db s reason now) in
      let trade : Market → ℕ → Store × Outcome = λ m token.
        elim (plan_trade d c st db s client m token) [
          | TradePlan.error e ↦ (db, Outcome.failed e)
          | TradePlan.miss reason ↦ skip reason
          | TradePlan.fill f ↦ commit_order db s (record_fill d st db s f now)
        ] in
      let gated : Store × Outcome = elim (check_gates st db s) [
        | GateResult.miss reason ↦ skip reason
        | GateResult.pass m token ↦ trade m token
      ] in
      let counted : Store × Outcome =
        (record db { signals = count_deferral s db.signals }, Outcome.deferred) in
      let delayed : Store × Outcome =
        if ltb now (eligible_at st s) then (db, Outcome.deferred) else gated in
      let switched : Store × Outcome = if st.order_kill_switch then counted else delayed in
      let aged : Store × Outcome =
        if is_stale_signal st s now then skip MissReason.stale_signal else switched in
      if_case P (not (is_paper_mode st)) (db, Outcome.failed TradeError.not_paper_mode) aged
        (λ _. fails TradeError.not_paper_mode)
        (λ paper.
          if_case P (is_stale_signal st s now) (skip MissReason.stale_signal) switched
            (λ _. skips MissReason.stale_signal)
            (λ fresh.
              if_case P st.order_kill_switch counted delayed (λ _. counts)
                (λ off.
                  if_case P (ltb now (eligible_at st s)) (db, Outcome.deferred) gated (λ _. waits)
                    (λ late. gates_case P (check_gates st db s) skip trade skips (λ m token gate.
                      plan_case P (plan_trade d c st db s client m token)
                        (λ e. (db, Outcome.failed e)) skip
                        (λ f. commit_order db s (record_fill d st db s f now)) fails skips
                        (λ f planned.
                          let passed = check_gates-pass st db s gate in
                          fills f m token
                            (record {
                              paper = paper_settings st paper;
                              kill_switch = off;
                              fresh = fresh_signal st s now fresh;
                              reviewed = reviewed_signal st s now late;
                              allowed = passed.0;
                              market_open = (m, passed.1);
                              side_open = passed.2;
                            })
                            planned))))))
