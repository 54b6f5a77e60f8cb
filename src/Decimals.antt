-- ===== src/Decimals.antt =====
-- The decimals of the program as counts. Shares are counted in a share unit, prices in a price unit,
-- and money in the product of the two, so that shares times price is exact, where Python rounds a
-- product and a sum of more than 28 digits: `one` is the number of price units in 1 dollar a share.
-- Python's quotient of two decimals is correctly rounded to 28
-- digits; it is a parameter, with the two laws of a correct rounding that the code relies on.
use native.Mathlib.Decide.{dec_lt}
use native.Mathlib.Nat.{mul-div_cancel, le-div_iff_mul-le, div-mul-le_self, div-zero, le_trans}
use poly.Prelude.{ℕ, ◌*◌, ◌/◌, ◌≤◌, ◌<◌, ◌≡◌, arith}

pub record Decimals : Type 0 where
  -- `Decimal(1)` as a price.
  pub one : ℕ
  -- Money divided by a price, in shares, and money divided by shares, as a price.
  pub quotient : ℕ → ℕ → ℕ

-- The documented behaviour of the quotient: it is monotone, and exact where the result is a decimal.
pub record IsRounded (d : Decimals) : Type 0 where
  pub one_pos : 0 < d.one
  pub quotient_mono : (a b c : ℕ) → a ≤ b → d.quotient a c ≤ d.quotient b c
  pub quotient_exact : (a c : ℕ) → 0 < c → d.quotient (a * c) c ≡ a

div_mono : (a b c : ℕ) → a ≤ b → a / c ≤ b / c
div_mono a b c h = elim (dec_lt 0 c) [
  | yes p ↦ (le-div_iff_mul-le p).1 (le_trans (div-mul-le_self a c) h)
  | no n ↦ let e : c ≡ 0 = omega arith in rw e (omega (arith, div-zero a))
]

-- The laws can be met: prices in millionths, and quotients rounded down.
abbrev pub micros : Decimals
micros = record { one = 1_000_000; quotient = λ a b. a / b }

pub micros-IsRounded : IsRounded micros
micros-IsRounded = record {
  one_pos = omega arith;
  quotient_mono = div_mono;
  quotient_exact = λ a c h. mul-div_cancel a h;
}

module _ (d : Decimals) (laws : IsRounded d) where
  pub le-quotient : (a b c : ℕ) → 0 < c → a * c ≤ b → a ≤ d.quotient b c
  le-quotient a b c h le =
      omega (arith, laws.quotient_mono (a * c) b c le, laws.quotient_exact a c h)

  pub quotient-le : (a b c : ℕ) → 0 < c → b ≤ a * c → d.quotient b c ≤ a
  quotient-le a b c h le =
      omega (arith, laws.quotient_mono b (a * c) c le, laws.quotient_exact a c h)
