-- ===== src/Fees.antt =====
-- backend/src/polycopy/execution/fees.py: the market's fee curve and the fee of a taker fill. The
-- JSON shapes of the market info are a data type. Rates and exponents are counts of any fixed unit.
-- The power of two decimals is the standard library's, a parameter that fails where Python raises
-- InvalidOperation; `curve_unit` is the number of units of shares times rate times power in one
-- quantum of 0.00001 dollars, and `quantum` the money of one quantum.
pub mod Rounding
mod Tests
use poly.Prelude.{
  ℕ, ◌+◌, ◌-◌, ◌*◌, ◌/◌, ◌<◌, ◌≡◌, Bool, true, false, ◌&&◌, ◌||◌, Option, none, some, ltb, leb,
  ◌==◌, if◌then◌else◌, ℤ, pos, negsuc,
}
use poly.Decimals.{Decimals}
use poly.Bookwalk.{Amount}

-- A value of the JSON object under `r` or `e`.
pub data RawNumber : Type 0 where
  missing boolean unparsable : RawNumber
  number : Amount → RawNumber

-- The value under `to`.
pub data RawFlag : Type 0 where
  no_flag bad_flag : RawFlag
  flag : Bool → RawFlag

pub data MarketInfo : Type 0 where
  not_a_dict fd_absent fd_null fd_not_a_dict fd_empty : MarketInfo
  fd : RawFlag → RawNumber → RawNumber → MarketInfo

pub data MetadataState : Type 0 where
  absent null empty curve : MetadataState

pub record MarketFee : Type 0 where
  pub rate : ℕ
  pub exponent : ℕ
  pub taker_only : Option Bool
  pub metadata_state : MetadataState

pub data FeeError : Type 0 where
  type_error value_error invalid_operation : FeeError

pub data FeeResult (A : Type 0) : Type 0 where
  ok : A → FeeResult A
  err : FeeError → FeeResult A

infixl 5 ◌>>=◌
abbrev ◌>>=◌ : {A B : Type 0} → FeeResult A → (A → FeeResult B) → FeeResult B
ok a >>= f = f a
err e >>= f = err e

-- A finite number that is not negative; every other shape ends in a ValueError.
coefficient : RawNumber → FeeResult ℕ
coefficient (RawNumber.number (Amount.finite (pos n))) = ok n
coefficient _ = err FeeError.value_error

taker_flag : RawFlag → FeeResult (Option Bool)
taker_flag RawFlag.no_flag = ok none
taker_flag RawFlag.bad_flag = err FeeError.type_error
taker_flag (RawFlag.flag b) = ok (some b)

abbrev free : MetadataState → MarketFee
free state = record { rate = 0; exponent = 0; taker_only = none; metadata_state = state }

unfoldable pub from_market_info : MarketInfo → FeeResult MarketFee
unfolding coefficient taker_flag
from_market_info MarketInfo.not_a_dict = err FeeError.type_error
from_market_info MarketInfo.fd_absent = ok (free MetadataState.absent)
from_market_info MarketInfo.fd_null = ok (free MetadataState.null)
from_market_info MarketInfo.fd_not_a_dict = err FeeError.type_error
from_market_info MarketInfo.fd_empty = ok (free MetadataState.empty)
from_market_info (MarketInfo.fd to r e) = do
  taker ← taker_flag to
  rate ← coefficient r
  exponent ← coefficient e
  ok (record {
    rate = rate;
    exponent = exponent;
    taker_only = taker;
    metadata_state = MetadataState.curve;
  })

-- The arithmetic of the curve that the decimals of Python provide.
pub record FeeCurve : Type 0 where
  pub power : ℕ → ℕ → Option ℕ
  pub curve_unit : ℕ
  pub quantum : ℕ

-- `quantize(…, ROUND_HALF_UP)`, in whole quanta.
pub half_up : ℕ → ℕ → ℕ
half_up n unit = (2 * n + unit) / (2 * unit)

module _ (d : Decimals) (c : FeeCurve) where
  unfoldable pub taker_fee : MarketFee → ℕ → ℕ → FeeResult ℕ
  unfolding half_up
  taker_fee fee shares price =
      if ltb 0 shares && (ltb 0 price && leb price d.one)
      then if fee.rate == 0 then ok 0 else elim (c.power (price * (d.one - price)) fee.exponent) [
        | none ↦ err FeeError.invalid_operation
        | some p ↦ ok (half_up (shares * fee.rate * p) c.curve_unit * c.quantum)
      ]
      else err FeeError.value_error
