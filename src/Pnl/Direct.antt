-- ===== src/Pnl/Direct.antt =====
-- The accounting of backend/src/polycopy/accounting/pnl.py against a direct formula over the legs.
use mathlib.Core.Path.{ap₂}
use poly.Prelude.{
  ℕ, ◌≡◌, refl, Option, none, some, List, [], ◌∷◌, arith, ◌==◌, ==_iff, if◌then◌else◌, ℤ, pos, ◌+ℤ◌,
  ◌*ℤ◌, int_laws, sum_ℤ, Dict, lookup, insert, or_else, lookup-insert, Bool-cases, inl, inr, max_ℤ,
  pos_part, neg_part, ap, ◌∙◌,
}
use poly.Pnl.{
  TradeLeg, MarketPosition, no_position, signed_size, leg_cash, add_leg, add_legs, winning_payout,
  account_market,
}

-- The net shares that the legs leave in one outcome.
abbrev pub net_shares : ℕ → List TradeLeg → ℤ
net_shares outcome = sum_ℤ (λ leg. if leg.outcome == outcome then signed_size leg else pos 0)

abbrev shares_of : ℕ → Dict MarketPosition → ℤ
shares_of outcome positions = (or_else (lookup outcome positions) no_position).shares

abbrev cash_of : Dict MarketPosition → ℤ
cash_of = sum_ℤ (λ (e : ℕ × MarketPosition). e.1.cash_flow)

zero_add : (a : ℤ) → pos 0 +ℤ a ≡ a
zero_add a = omega int_laws

cash_of-insert :
    (k : ℕ) (p : MarketPosition) (d : Dict MarketPosition)
    → cash_of (insert k p d) +ℤ (or_else (lookup k d) no_position).cash_flow
      ≡ cash_of d +ℤ p.cash_flow
cash_of-insert k p [] = omega int_laws
cash_of-insert k p (e ∷ d) = grind (int_laws, cash_of-insert k p d)

cancel_middle : (a b c e : ℤ) → a +ℤ c ≡ b +ℤ (c +ℤ e) → a ≡ b +ℤ e
cancel_middle a b c e h = omega (int_laws, ap pos_part h, ap neg_part h)

cash_of-add_leg :
    (d : Dict MarketPosition) (leg : TradeLeg) → cash_of (add_leg d leg) ≡ cash_of d +ℤ leg_cash leg
unfolding add_leg
cash_of-add_leg d leg =
    let old = (or_else (lookup leg.outcome d) no_position).cash_flow in
    let grown : cash_of (add_leg d leg) +ℤ old ≡ cash_of d +ℤ (old +ℤ leg_cash leg) =
      cash_of-insert leg.outcome _ d in
    cancel_middle (cash_of (add_leg d leg)) (cash_of d) old (leg_cash leg) grown

shares_of-add_leg :
    (o : ℕ) (d : Dict MarketPosition) (leg : TradeLeg)
    → shares_of o (add_leg d leg)
      ≡ shares_of o d +ℤ (if leg.outcome == o then signed_size leg else pos 0)
unfolding add_leg
shares_of-add_leg o d leg =
    let p = or_else (lookup leg.outcome d) no_position in
    let p' : MarketPosition = record {
      shares = p.shares +ℤ signed_size leg;
      cash_flow = p.cash_flow +ℤ leg_cash leg;
    } in
    rw (lookup-insert leg.outcome o p' d, shares_of)
      (elim (Bool-cases (leg.outcome == o)) [
        | inl same ↦ rw (same, (==_iff _ _).0 same)
        | inr other ↦ rw other (omega int_laws)
      ])

cash_of-add_legs :
    (legs : List TradeLeg) (d : Dict MarketPosition)
    → cash_of (add_legs d legs) ≡ cash_of d +ℤ sum_ℤ leg_cash legs
unfolding add_legs
cash_of-add_legs [] d = omega int_laws
cash_of-add_legs (leg ∷ legs) d =
    rw (cash_of-add_legs legs (add_leg d leg), cash_of-add_leg d leg) (omega int_laws)

shares_of-add_legs :
    (o : ℕ) (legs : List TradeLeg) (d : Dict MarketPosition)
    → shares_of o (add_legs d legs) ≡ shares_of o d +ℤ net_shares o legs
unfolding add_legs
shares_of-add_legs o [] d = omega int_laws
shares_of-add_legs o (leg ∷ legs) d =
    rw (shares_of-add_legs o legs (add_leg d leg), shares_of-add_leg o d leg) (omega int_laws)

winning_payout-shares :
    (one : ℕ) (p : Option MarketPosition)
    → winning_payout one p ≡ max_ℤ (pos 0) (or_else p no_position).shares *ℤ pos one
unfolding winning_payout ◌*ℤ◌
winning_payout-shares one none = ground arith
winning_payout-shares one (some p) = ground arith

-- The accounting of a market, which goes through a dict of positions, is the direct sum: the cash of
-- every leg and, once the market is resolved, 1 dollar for each net share of the winner, if that net
-- is positive. An unresolved market has no realized P&L.
pub account_market_direct :
    (one key : ℕ) (legs : List TradeLeg) (winner : Option ℕ)
    → (account_market one key legs winner).realized_pnl ≡ elim winner [
      | none ↦ none
      | some w ↦ some (sum_ℤ leg_cash legs +ℤ max_ℤ (pos 0) (net_shares w legs) *ℤ pos one)
    ]
unfolding account_market
account_market_direct one key legs none = refl
account_market_direct one key legs (some w) =
    let cash = cash_of-add_legs legs [] in
    let shares = shares_of-add_legs w legs [] in
    ap some (
      ap₂ ◌+ℤ◌ (cash ∙ zero_add (sum_ℤ leg_cash legs)) (
        winning_payout-shares one (lookup w (add_legs [] legs))
        ∙ ap (λ n. max_ℤ (pos 0) n *ℤ pos one) (shares ∙ zero_add (net_shares w legs))))
