-- ===== src/Settlements/Backoff.antt =====
-- The retries of backend/src/polycopy/accounting/settlements.py.
use poly.Prelude.{ℕ, ◌+◌, ◌*◌, ◌≤◌, ◌≡◌, none, some, or_else, length}
use poly.Settlements.{
  Detection, detect_winning_outcome, MarketRow, Lookup, Refresh, Round, second_micros,
}

-- What a round ends with: a store, or an error, that it may only raise under a condition.
abbrev pub Ends : (Refresh → Type 0) → Type 0 → Round → Type 0
Ends P Q (Round.next r) = P r
Ends P Q (Round.stop r) = P r
Ends P Q Round.raised = Q

-- The answer is a market in whose prices a NaN stands where they are compared.
abbrev pub RaisesOn : ℕ → Lookup → Type 0
RaisesOn one (Lookup.answered (some g) used) = detect_winning_outcome one g ≡ Detection.raised
RaisesOn one answer = ⊥

-- The seconds that the venue asks to wait are waited for: by the throttle of the request family, and by
-- the next check of the market.
abbrev Waits : ℕ → Lookup → Refresh → Type 0
Waits now (Lookup.failed (some seconds)) r =
    (at throttle : ℕ) × (r.market.settlement_next_check_at ≡ some at)
    × (r.throttle ≡ some throttle)
    × (now + second_micros * seconds ≤ at)
    × (now + second_micros * seconds ≤ throttle)
Waits now answer r = Unit

-- The markets that are settled or still wait: a round leaves the market with an outcome and no next
-- check, or with a next check at least a minute away.
abbrev Scheduled : ℕ → MarketRow → Type 0
Scheduled now m = elim m.settlement_next_check_at [
  | none ↦ (o : ℕ) × (m.resolved_outcome ≡ some o)
  | some at ↦ now + second_micros * 60 ≤ at
]

-- What a round has written, at a time: the market is scheduled, the throttle of the request family is
-- not shortened, and there are as many settlements more as are counted.
pub record Written (now : ℕ) (before after : Refresh) : Type 0 where
  pub scheduled : Scheduled now after.market
  pub throttled : or_else before.throttle 0 ≤ or_else after.throttle 0
  pub counted :
      length after.settlements + before.stats.settled
      ≡ length before.settlements + after.stats.settled
  pub attempts : after.market.settlement_attempt_count ≡ before.market.settlement_attempt_count + 1

-- A round on a market, by the answer of the lookup.
pub record Advanced (now : ℕ) (answer : Lookup) (before after : Refresh) : Type 0 where
  pub written : Written now before after
  pub waits : Waits now answer after
