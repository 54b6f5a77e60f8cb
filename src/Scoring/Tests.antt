-- ===== src/Scoring/Tests.antt =====
-- Verdicts of backend/src/polycopy/scoring/score.py on concrete histories.
use poly.Prelude.{◌≡◌, ◌↔◌, refl, some, pos, negsuc, [], ◌∷◌}
use poly.Decimals.{micros, micros-IsRounded}
use poly.Approval.{Verdict}
use poly.Scoring.{WalletStats, score_wallet}
use poly.Scoring.Gates.{IsReviewable, score_wallet_review}

abbrev test_stats : WalletStats
test_stats = record {
  realized_pnl = pos 500;
  settled_market_count = 40;
  trade_count = 90;
  per_market_pnl = pos 300 ∷ negsuc 99 ∷ pos 300 ∷ [];
  first_trade_at = some 0;
  last_trade_at = some 5_000_000_000_000;
}

test_review : score_wallet micros test_stats 5_184_000_000_000 7500 ≡ Verdict.pending_review
unfolding score_wallet
test_review = refl

score_wallet_review_example :
    (score_wallet micros test_stats 5_184_000_000_000 7500 ≡ Verdict.pending_review)
    ↔ IsReviewable micros test_stats 5_184_000_000_000 7500
score_wallet_review_example =
    score_wallet_review micros test_stats 5_184_000_000_000 7500 micros-IsRounded
