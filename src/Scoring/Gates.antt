-- ===== src/Scoring/Gates.antt =====
-- What the verdict of backend/src/polycopy/scoring/score.py says of a wallet's history.
use poly.Prelude.{
  ℕ, ◌-◌, ◌/◌, ◌≤◌, ◌≡◌, ◌↔◌, Bool, true, false, not, ◌&&◌, Option, none, some, [], ◌∷◌, ◌++◌,
  arith, ltb, if◌then◌else◌, ℤ, pos, ◌<ℤ◌, leb_ℤ, any,
}
use poly.Approval.{Verdict}
use poly.Decimals.{Decimals, IsRounded}
use poly.Scoring.Concentration.{IsSpread, is_concentrated-IsSpread}
use poly.Scoring.{
  gate, min_settled_markets, min_trades, min_account_age_days, max_inactive_days,
  verdict_review_threshold, day_micros, WalletStats, GateFailure, is_maturity, kind, days_since,
  history_gate, activity_gate, history_failures, check_gates, verdict_of, is_concentrated,
  score_wallet,
}

-- The account is old enough.
abbrev IsAged : Option ℕ → ℕ → Type 0
IsAged none now = ⊥
IsAged (some first) now = min_account_age_days ≤ (now - first) / day_micros

abbrev IsActive : Option ℕ → ℕ → Type 0
IsActive none now = ⊥
IsActive (some last) now = (now - last) / day_micros ≤ max_inactive_days

-- Enough history to judge.
pub record IsMature (s : WalletStats) (now : ℕ) : Type 0 where
  pub markets : min_settled_markets ≤ s.settled_market_count
  pub trades : min_trades ≤ s.trade_count
  pub aged : IsAged s.first_trade_at now

-- The tests of the gates, without the list of failures.
abbrev aged : Option ℕ → ℕ → Bool
aged none now = false
aged (some first) now = not (ltb ((now - first) / day_micros) min_account_age_days)

abbrev active : Option ℕ → ℕ → Bool
active none now = false
active (some last) now = not (ltb max_inactive_days ((now - last) / day_micros))

aged_iff : (o : Option ℕ) (now : ℕ) → (aged o now ≡ true) ↔ IsAged o now
aged_iff none now = ground arith
aged_iff (some first) now = ground arith

active_iff : (o : Option ℕ) (now : ℕ) → (active o now ≡ true) ↔ IsActive o now
active_iff none now = ground arith
active_iff (some last) now = ground arith

-- The verdict as a chain of tests.
abbrev chain : Bool → Bool → Bool → Bool → ℕ → Verdict
chain mature active profit concentrated composite =
    if not mature
    then Verdict.insufficient_history
    else if not (active && profit)
    then Verdict.score_rejected
    else verdict_of [] concentrated composite

history_lem :
    (m t : Bool) (first last : Option ℕ) (now : ℕ) (pnl : Bool) (concentrated : Bool)
    (composite : ℕ)
    → let failures =
        gate m GateFailure.settled_markets
        ++ (gate t GateFailure.trades ++ (history_gate first now ++ activity_gate last now)) in
      verdict_of
        (if not (any is_maturity failures) && pnl
          then failures ++ (GateFailure.realized_pnl ∷ [])
          else failures)
        concentrated
        composite
      ≡ chain
          (not m && (not t && aged first now))
          (active last now)
          (not pnl)
          concentrated
          composite
unfolding history_gate activity_gate is_maturity kind verdict_of days_since
history_lem m t none none now pnl concentrated composite = ground arith
history_lem m t none (some last) now pnl concentrated composite = ground arith
history_lem m t (some first) none now pnl concentrated composite = ground arith
history_lem m t (some first) (some last) now pnl concentrated composite = ground arith

abbrev mature : WalletStats → ℕ → Bool
mature s now =
    not (ltb s.settled_market_count min_settled_markets)
    && (not (ltb s.trade_count min_trades) && aged s.first_trade_at now)

mature_iff : (s : WalletStats) (now : ℕ) → (mature s now ≡ true) ↔ IsMature s now
mature_iff s now =
    let (there, back) = aged_iff s.first_trade_at now in
    (
      λ h. record { markets = ground arith; trades = ground arith; aged = there (ground arith) },
      λ m.
          let markets = m.markets in let trades = m.trades in let old = back m.aged in ground arith,
    )

chain_insufficient :
    (m a p c : Bool) (n : ℕ) → (chain m a p c n ≡ Verdict.insufficient_history) ↔ (m ≡ false)
unfolding verdict_of
chain_insufficient m a p c n = ground arith

chain_review :
    (m a p c : Bool) (n : ℕ)
    → (chain m a p c n ≡ Verdict.pending_review)
      ↔ ((m ≡ true) × (a ≡ true) × (p ≡ true) × (c ≡ false) × (verdict_review_threshold ≤ n))
unfolding verdict_of
chain_review m a p c n = ground arith

profit_iff : (z : ℤ) → (not (leb_ℤ z (pos 0)) ≡ true) ↔ (pos 0 <ℤ z)
profit_iff z = ground arith

score_wallet-chain :
    (d : Decimals) (s : WalletStats) (now composite : ℕ)
    → score_wallet d s now composite
      ≡ chain
          (mature s now)
          (active s.last_trade_at now)
          (not (leb_ℤ s.realized_pnl (pos 0)))
          (is_concentrated d s.per_market_pnl)
          composite
unfolding score_wallet check_gates history_failures
score_wallet-chain d s now composite =
    history_lem (ltb s.settled_market_count min_settled_markets) (ltb s.trade_count min_trades)
      s.first_trade_at s.last_trade_at now (leb_ℤ s.realized_pnl (pos 0))
      (is_concentrated d s.per_market_pnl) composite

no_both : {b : Bool} → b ≡ false → b ≡ true → ⊥
no_both {b} h k = ground arith

-- The scorer says insufficient history exactly of the wallets without enough history, whatever their
-- profit and activity: lack of evidence is not a rejection, and a rejection is on enough history.
pub score_wallet_insufficient :
    (d : Decimals) (s : WalletStats) (now composite : ℕ)
    → (score_wallet d s now composite ≡ Verdict.insufficient_history) ↔ (¬ (IsMature s now))
score_wallet_insufficient d s now composite =
    let verdict =
      chain_insufficient (mature s now) (active s.last_trade_at now)
        (not (leb_ℤ s.realized_pnl (pos 0))) (is_concentrated d s.per_market_pnl) composite in
    let history = mature_iff s now in
    rw (score_wallet-chain d s now composite)
      (λ e m. no_both (verdict.0 e) (history.1 m), λ no. verdict.1 (ground (arith, history)))

-- What a wallet must show for the review queue.
pub record IsReviewable (d : Decimals) (s : WalletStats) (now composite : ℕ) : Type 0 where
  pub mature : IsMature s now
  pub active : IsActive s.last_trade_at now
  pub profitable : pos 0 <ℤ s.realized_pnl
  pub spread : IsSpread d s.per_market_pnl
  pub scored : verdict_review_threshold ≤ composite

-- With a correctly rounded quotient and whatever the composite of the weighted components is, the scorer
-- proposes exactly the wallets for review that have enough history, were active lately, have a positive
-- realized profit, in which no market's gain has a share of more than a half of the gains of all the
-- markets with one, and whose composite reaches the threshold.
pub score_wallet_review :
    (d : Decimals) (s : WalletStats) (now composite : ℕ)
    → IsRounded d
    → (score_wallet d s now composite ≡ Verdict.pending_review) ↔ IsReviewable d s now composite
score_wallet_review d s now composite laws =
    let verdict =
      chain_review (mature s now) (active s.last_trade_at now) (not (leb_ℤ s.realized_pnl (pos 0)))
        (is_concentrated d s.per_market_pnl) composite in
    let history = mature_iff s now in
    let activity = active_iff s.last_trade_at now in
    let profit = profit_iff s.realized_pnl in
    let shares = is_concentrated-IsSpread d laws s.per_market_pnl in
    rw (score_wallet-chain d s now composite) (
      λ e.
          let (m, a, p, c, n) = verdict.0 e in
          record {
            mature = history.0 m;
            active = activity.0 a;
            profitable = profit.0 p;
            spread = shares.0 c;
            scored = n;
          },
      λ r. verdict.1 (
        history.1 r.mature,
        activity.1 r.active,
        profit.1 r.profitable,
        shares.1 r.spread,
        r.scored,
      ),
    )
