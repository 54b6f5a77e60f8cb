-- ===== src/Settlements/Loop.antt =====
-- `refresh_settlements` of backend/src/polycopy/accounting/settlements.py: the query and the loop over the
-- markets.
use poly.Prelude.{
  ℕ, Bool, true, not, ◌&&◌, Option, none, some, List, [], ◌∷◌, ◌==◌, if◌then◌else◌, leb, filter,
  any, take,
}
use poly.Execution.Store.{Settlement}
use poly.Settlements.{MarketRow, Lookup, Refresh, Round, check_market}

-- Whether a market has a settlement.
unfoldable pub is_settled : List Settlement → ℕ → Bool
is_settled settlements market = any (λ (s : Settlement). s.market_id == market) settlements

-- The test of the query: no settlement, and the next check is due.
unfoldable pub is_due : ℕ → List Settlement → MarketRow → Bool
unfolding is_settled
is_due now settlements m =
    not (is_settled settlements m.id)
    && elim m.settlement_next_check_at as (λ _. Bool) [ none ↦ true | some at ↦ leb at now ]

-- What the loop leaves committed: the markets that it checked, and the state of the last round. raised is
-- the error that the caller sees: the rounds before it are committed and its own is not.
pub data Refreshed : Type 0 where
  refreshed raised : List MarketRow → Refresh → Refreshed

unfoldable pub after_round : Refresh → (MarketRow → Refresh → Refreshed) → Round → Refreshed
after_round before again (Round.next r) = again r.market r
after_round before again (Round.stop r) = refreshed (r.market ∷ []) r
after_round before again Round.raised = raised [] before

abbrev pub with_market : MarketRow → Refreshed → Refreshed
with_market m (refreshed ms r) = refreshed (m ∷ ms) r
with_market m (raised ms r) = raised (m ∷ ms) r

-- The loop, by what each lookup answers.
unfoldable pub check_markets : ℕ → ℕ → (MarketRow → Lookup) → List MarketRow → Refresh → Refreshed
unfolding after_round check_market
check_markets one now answers [] r = refreshed [] r
check_markets one now answers (m ∷ ms) r =
    after_round r (λ m' r'. with_market m' (check_markets one now answers ms r'))
      (check_market one now (answers m) (record r { market = m }))

-- The function, by whether the request family is cooling down and the bound on the markets. The markets
-- are those of the condition ids and the wallet of the caller, in the order of the query.
unfoldable pub refresh_settlements :
    ℕ → ℕ → Bool → Option ℕ → (MarketRow → Lookup) → List MarketRow → Refresh → Refreshed
unfolding is_due check_markets
refresh_settlements one now backoff limit answers markets r =
    let due = filter (is_due now r.settlements) markets in
    let chosen = elim limit as (λ _. List MarketRow) [ none ↦ due | some n ↦ take n due ] in
    if backoff then refreshed [] r else check_markets one now answers chosen r
