-- ===== src/Settlements.antt =====
-- backend/src/polycopy/accounting/settlements.py: the winner of a resolved market, the retry delay and
-- the round of `refresh_settlements` on one market. Outcomes are only compared, so they are numbers;
-- times are microseconds. Of a market's metadata only `closed` is kept. `one` is the price 1.
pub mod Winner
pub mod Backoff
pub mod Loop
pub mod Unique
mod Tests
use poly.Prelude.{
  ℕ, suc, ◌+◌, ◌-◌, ◌*◌, ◌^◌, min, max, Bool, true, false, not, ◌&&◌, ◌||◌, Option, none, some,
  List, [], ◌∷◌, ◌++◌, ◌==◌, if◌then◌else◌, ℤ, pos, ltb_ℤ, eqb_ℤ, length, any, or_else,
}
use poly.Execution.Store.{Settlement}

-- A price of `outcomePrices` as a Decimal; unparsable is an InvalidOperation.
pub data Price : Type 0 where
  number : ℤ → Price
  infinite nan unparsable : Price

-- A Gamma market; `prices` is none if the text of the prices is not JSON, and `closed` is none if the
-- key is missing.
pub record GammaMarket : Type 0 where
  pub closed : Option Bool
  pub outcomes : List ℕ
  pub prices : Option (List Price)

-- The result of `detect_winning_outcome`; raised is the comparison of a NaN.
pub data Detection : Type 0 where
  winner : ℕ → Detection
  undecided raised : Detection

is_unparsable : Price → Bool
is_unparsable p = elim p [ Price.unparsable ↦ true | _ ↦ false ]

is_one : ℕ → Price → Bool
is_one one (Price.number z) = eqb_ℤ z (pos one)
is_one one _ = false

-- The outcomes whose price is 1.
pub winners : ℕ → List ℕ → List Price → List ℕ
unfolding is_one
winners one (o ∷ os) (p ∷ ps) =
    let rest = winners one os ps in if is_one one p then o ∷ rest else rest
winners one _ _ = []

pub data Range : Type 0 where
  inside outside invalid : Range

-- `any(p < 0 or p > 1 for p in prices)`
pub price_range : ℕ → List Price → Range
price_range one [] = Range.inside
price_range one (Price.number z ∷ ps) =
    let rest = price_range one ps in
    if ltb_ℤ z (pos 0) || ltb_ℤ (pos one) z then Range.outside else rest
price_range one (Price.nan ∷ ps) = Range.invalid
price_range one (_ ∷ ps) = Range.outside

-- The part of `detect_winning_outcome` below the tests of shape.
pub only_winner : ℕ → List Price → List ℕ → Detection
unfolding price_range
only_winner one prices (o ∷ []) = elim (price_range one prices) [
  | Range.inside ↦ Detection.winner o
  | Range.outside ↦ Detection.undecided
  | Range.invalid ↦ Detection.raised
]
only_winner one prices _ = Detection.undecided

pub detect_winning_outcome : ℕ → GammaMarket → Detection
unfolding is_unparsable winners only_winner
detect_winning_outcome one g =
    if not (or_else g.closed false) then Detection.undecided else elim g.prices [
      | none ↦ Detection.undecided
      | some prices ↦
          if length g.outcomes == 0 || not (length g.outcomes == length prices)
          then Detection.undecided
          else if any is_unparsable prices
          then Detection.undecided
          else only_winner one prices (winners one g.outcomes prices)
    ]

pub record MarketRow : Type 0 where
  pub id : ℕ
  pub closed : Bool
  pub resolved_outcome : Option ℕ
  pub settlement_last_checked_at : Option ℕ
  pub settlement_attempt_count : ℕ
  pub settlement_next_check_at : Option ℕ

-- The answer of `_lookup_closed_gamma_market`: an error with the seconds to wait that it may carry, or a
-- market, if one was found, and whether the token found it.
pub data Lookup : Type 0 where
  failed : Option ℕ → Lookup
  answered : Option GammaMarket → Bool → Lookup

pub record RefreshStats : Type 0 where
  pub checked : ℕ
  pub settled : ℕ
  pub skipped_ambiguous : ℕ
  pub not_found_or_open : ℕ
  pub token_fallback_hits : ℕ
  pub errors : ℕ

-- What one round writes: the market, the throttle of the request family, and the settlements.
pub record Refresh : Type 0 where
  pub market : MarketRow
  pub throttle : Option ℕ
  pub settlements : List Settlement
  pub stats : RefreshStats

-- How a round ends: by the next market, by `break`, or by an error that the caller sees.
pub data Round : Type 0 where
  next stop : Refresh → Round
  raised : Round

abbrev pub second_micros : ℕ
second_micros = 1000000

-- The seconds until the next check, after a number of attempts.
pub retry_delay : ℕ → ℕ
retry_delay attempts = min (12 * 3600) (60 * 2 ^ min (attempts - 1) 10)

-- The writes before the lookup.
pub mark_checked : ℕ → MarketRow → MarketRow
unfolding retry_delay
mark_checked now m =
    let attempts = m.settlement_attempt_count + 1 in
    record m {
      settlement_last_checked_at = some now;
      settlement_attempt_count = attempts;
      settlement_next_check_at = some (now + second_micros * retry_delay attempts);
    }

-- The branch of the errors.
pub lookup_failed : ℕ → Option ℕ → Refresh → Round
unfolding retry_delay
lookup_failed now retry r =
    let r' = record r { stats = record r.stats { errors = r.stats.errors + 1 } } in
    elim retry [
      | none ↦ Round.next r'
      | some seconds ↦
          let until = now + second_micros * seconds in
          let delay = retry_delay r.market.settlement_attempt_count in
          Round.stop (record r' {
            market = record r.market {
              settlement_next_check_at = some (now + second_micros * max delay seconds);
            };
            throttle = some (max (or_else r.throttle now) until);
          })
    ]

-- The branch of a market that was found, after its metadata are written.
pub settle_market : Detection → GammaMarket → Refresh → Round
settle_market Detection.raised g r = Round.raised
settle_market Detection.undecided g r = Round.next (record r {
  stats = record r.stats {
    skipped_ambiguous =
        if or_else g.closed false then r.stats.skipped_ambiguous + 1 else r.stats.skipped_ambiguous;
  };
})
settle_market (Detection.winner o) g r = Round.next (record r {
  market = record r.market {
    closed = true;
    resolved_outcome = some o;
    settlement_next_check_at = none;
  };
  settlements = r.settlements ++ (record { market_id = r.market.id; winning_outcome = o } ∷ []);
  stats = record r.stats { settled = r.stats.settled + 1 };
})

-- The round of the loop on one market.
pub check_market : ℕ → ℕ → Lookup → Refresh → Round
unfolding mark_checked lookup_failed settle_market detect_winning_outcome
check_market one now answer r =
    let marked = record r {
      market = mark_checked now r.market;
      stats = record r.stats { checked = r.stats.checked + 1 };
    } in
    elim answer [
      | Lookup.failed retry ↦ lookup_failed now retry marked
      | Lookup.answered none used ↦ Round.next (record marked {
        stats = record marked.stats { not_found_or_open = marked.stats.not_found_or_open + 1 };
      })
      | Lookup.answered (some g) used ↦
          let found = record marked {
            market = record marked.market { closed = or_else g.closed marked.market.closed };
            stats = record marked.stats {
              token_fallback_hits =
                  if used
                  then marked.stats.token_fallback_hits + 1
                  else marked.stats.token_fallback_hits;
            };
          } in
          settle_market (detect_winning_outcome one g) g found
    ]
