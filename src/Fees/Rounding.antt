-- ===== src/Fees/Rounding.antt =====
-- The fee of backend/src/polycopy/execution/fees.py: when there is one, and how it is rounded.
use poly.Decimals.{Decimals}
