-- ===== src/Fees/Tests.antt =====
-- Fees of backend/src/polycopy/execution/fees.py at concrete fills.
use poly.Prelude.{some, none, [], ◌∷◌, List}
use poly.Bookwalk.{Level}
use poly.Fees.{MetadataState, MarketFee, FeeCurve}

abbrev test_curve : FeeCurve
test_curve = record { power = λ x e. some x; curve_unit = 3_000_000_000_000; quantum = 10 }

abbrev test_fee : MarketFee
test_fee = record {
  rate = 2;
  exponent = 1;
  taker_only = none;
  metadata_state = MetadataState.curve;
}

abbrev test_levels : List Level
test_levels = record { price = 500_000; size = 300 } ∷ []
