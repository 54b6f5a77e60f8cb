-- ===== src/Settlements/Winner.antt =====
-- When backend/src/polycopy/accounting/settlements.py finds a winning outcome.
use poly.Prelude.{
  ℕ, ◌≡◌, true, some, List, [], ◌∷◌, arith, pos, ◌≤ℤ◌, length, All, Option-cases, inl, inr,
}
use poly.Settlements.{
  Price, GammaMarket, Detection, winners, Range, price_range, only_winner, detect_winning_outcome,
}

-- A number from 0 to 1.
abbrev IsProbability : ℕ → Price → Type 0
IsProbability one (Price.number z) = (pos 0 ≤ℤ z) × (z ≤ℤ pos one)
IsProbability one _ = ⊥

-- What makes an outcome the winner.
pub record IsWinner (one : ℕ) (g : GammaMarket) (o : ℕ) : Type 0 where
  pub closed : g.closed ≡ some true
  pub prices : List Price
  pub given : g.prices ≡ some prices
  pub same_length : length g.outcomes ≡ length prices
  pub only : winners one g.outcomes prices ≡ o ∷ []
  pub probabilities : All (IsProbability one) prices

price_range-inside :
    (one : ℕ) (ps : List Price) → price_range one ps ≡ Range.inside → All (IsProbability one) ps
unfolding price_range
price_range-inside one [] h = tt
price_range-inside one (Price.number z ∷ ps) h =
    (ground arith, price_range-inside one ps (ground arith))
price_range-inside one (Price.infinite ∷ ps) h = ground arith
price_range-inside one (Price.nan ∷ ps) h = ground arith
price_range-inside one (Price.unparsable ∷ ps) h = ground arith

only_winner-winner :
    (one : ℕ) (prices : List Price) (os : List ℕ) {o : ℕ}
    → only_winner one prices os ≡ Detection.winner o
    → (os ≡ o ∷ []) × (price_range one prices ≡ Range.inside)
unfolding only_winner
only_winner-winner one prices [] h = ground arith
only_winner-winner one prices (o ∷ []) h = ground arith
only_winner-winner one prices (o ∷ p ∷ os) h = ground arith

-- An outcome is only taken for the winner of a market that is closed, that gives a price for each
-- outcome, each a number from 0 to 1, and in which that outcome is the only one whose price is 1.
pub detect_winning_outcome_winner :
    (one : ℕ) (g : GammaMarket) {o : ℕ}
    → detect_winning_outcome one g ≡ Detection.winner o
    → IsWinner one g o
unfolding detect_winning_outcome
detect_winning_outcome_winner one g {o = o} h = elim (Option-cases g.prices) [
  | inl e ↦ absurd (ground arith)
  | inr (ps, e) ↦
      let found : only_winner one ps (winners one g.outcomes ps) ≡ Detection.winner o =
        ground arith in
      let (only, range) = only_winner-winner one ps (winners one g.outcomes ps) found in
      record {
        closed = ground arith;
        prices = ps;
        given = e;
        same_length = ground arith;
        only = only;
        probabilities = price_range-inside one ps range;
      }
]
