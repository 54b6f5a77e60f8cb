-- ===== src/Scoring.antt =====
-- backend/src/polycopy/scoring/score.py: the eligibility gates, the share of the best market and the
-- verdict. Times are microseconds; money is a signed count of the unit of Decimals, and a share of
-- the profit is counted as a price is, so that 1 is `one`. The weighted composite is binary floating
-- point: its value, in hundredths of a point, is an argument of the verdict. The statistics that only
-- the composite reads are not in the model.
pub mod Gates
pub mod Concentration
mod Tests
use poly.Prelude.{
  zero, suc, negsuc, max, sum_by, ℕ, ◌+◌, ◌-◌, ◌*◌, ◌/◌, Bool, true, false, not, ◌&&◌, ◌||◌, Option,
  none, some, List, [], ◌∷◌, ◌++◌, ltb, leb, ◌==◌, if◌then◌else◌, ℤ, pos, ◌+ℤ◌, leb_ℤ, ltb_ℤ, sum_ℤ,
  filter, any,
}
use poly.Decimals.{Decimals}
use poly.Approval.{Verdict}

abbrev pub min_settled_markets : ℕ
min_settled_markets = 15

abbrev pub min_trades : ℕ
min_trades = 30

abbrev pub min_account_age_days : ℕ
min_account_age_days = 30

abbrev pub max_inactive_days : ℕ
max_inactive_days = 14

abbrev pub day_micros : ℕ
day_micros = 86400000000

abbrev pub verdict_review_threshold : ℕ
verdict_review_threshold = 7000

abbrev verdict_reject_threshold : ℕ
verdict_reject_threshold = 5000

pub record WalletStats : Type 0 where
  pub realized_pnl : ℤ
  pub settled_market_count : ℕ
  pub trade_count : ℕ
  pub per_market_pnl : List ℤ
  pub first_trade_at : Option ℕ
  pub last_trade_at : Option ℕ

pub data GateKind : Type 0 where
  maturity evidence : GateKind

-- The gates of `check_gates`, in the place of their messages.
pub data GateFailure : Type 0 where
  settled_markets trades no_history account_age no_activity inactive realized_pnl : GateFailure

pub kind : GateFailure → GateKind
kind GateFailure.settled_markets = GateKind.maturity
kind GateFailure.trades = GateKind.maturity
kind GateFailure.no_history = GateKind.maturity
kind GateFailure.account_age = GateKind.maturity
kind GateFailure.no_activity = GateKind.evidence
kind GateFailure.inactive = GateKind.evidence
kind GateFailure.realized_pnl = GateKind.evidence

pub is_maturity : GateFailure → Bool
unfolding kind
is_maturity g = elim (kind g) [ GateKind.maturity ↦ true | GateKind.evidence ↦ false ]

abbrev pub gate : Bool → GateFailure → List GateFailure
gate failed g = if failed then g ∷ [] else []

-- `(now - at).days`; a time after `now` counts as no day, which decides as a negative count does.
pub days_since : ℕ → ℕ → ℕ
days_since now at = (now - at) / day_micros

pub history_gate : Option ℕ → ℕ → List GateFailure
unfolding days_since
history_gate none now = GateFailure.no_history ∷ []
history_gate (some first) now =
    gate (ltb (days_since now first) min_account_age_days) GateFailure.account_age

pub activity_gate : Option ℕ → ℕ → List GateFailure
unfolding days_since
activity_gate none now = GateFailure.no_activity ∷ []
activity_gate (some last) now =
    gate (ltb max_inactive_days (days_since now last)) GateFailure.inactive

-- The gates in front of the one on the realized profit.
pub history_failures : WalletStats → ℕ → List GateFailure
unfolding history_gate activity_gate
history_failures s now =
    gate (ltb s.settled_market_count min_settled_markets) GateFailure.settled_markets
    ++ (gate (ltb s.trade_count min_trades) GateFailure.trades
        ++ (history_gate s.first_trade_at now ++ activity_gate s.last_trade_at now))

pub check_gates : WalletStats → ℕ → List GateFailure
unfolding history_failures is_maturity
check_gates s now =
    let failures = history_failures s now in
    if not (any is_maturity failures) && leb_ℤ s.realized_pnl (pos 0)
    then failures ++ (GateFailure.realized_pnl ∷ [])
    else failures

pub verdict_of : List GateFailure → Bool → ℕ → Verdict
unfolding is_maturity
verdict_of [] concentrated composite =
    if concentrated
    then Verdict.score_rejected
    else if leb verdict_review_threshold composite
    then Verdict.pending_review
    else if leb verdict_reject_threshold composite
    then Verdict.discovered
    else Verdict.score_rejected
verdict_of failures concentrated composite =
    if any is_maturity failures then Verdict.insufficient_history else Verdict.score_rejected

-- `[p for p in per_market_pnl if p > 0]`
unfoldable pub positives : List ℤ → List ℕ
positives [] = []
positives (pos zero ∷ ps) = positives ps
positives (pos (suc n) ∷ ps) = suc n ∷ positives ps
positives (negsuc n ∷ ps) = positives ps

unfoldable pub largest : List ℕ → ℕ
largest [] = 0
largest (n ∷ ns) = max n (largest ns)

abbrev pub total : List ℕ → ℕ
total = sum_by (λ n. n)

-- The share of `_concentration`: with no profit at all it is 1.
unfoldable pub concentration : Decimals → List ℤ → ℕ
unfolding positives largest
concentration d pnl =
    let gains = positives pnl in
    if total gains == 0 then d.one else d.quotient (largest gains * d.one) (total gains)

-- `conc_share > CONCENTRATION_HARD_REJECT`, which is a half.
unfoldable pub is_concentrated : Decimals → List ℤ → Bool
unfolding concentration
is_concentrated d pnl = ltb d.one (2 * concentration d pnl)

-- `score_wallet`: the verdict, by the composite.
pub score_wallet : Decimals → WalletStats → ℕ → ℕ → Verdict
unfolding check_gates verdict_of is_concentrated
score_wallet d s now composite =
    verdict_of (check_gates s now) (is_concentrated d s.per_market_pnl) composite
