-- ===== src/Pnl/Summary.antt =====
-- The roll-up of backend/src/polycopy/accounting/pnl.py over the markets of a wallet.
use poly.Prelude.{
  ◌+◌, ◌≤◌, ◌≡◌, Bool, true, false, not, List, [], ◌∷◌, arith, ℤ, pos, ◌+ℤ◌, ◌-ℤ◌, ◌≤ℤ◌, int_laws,
  sum_ℤ, ap, pos_part, neg_part, filter, length, length-filter, Bool-cases, inl, inr,
}
use poly.Pnl.{MarketAccounting, pnl_or_zero, is_winning, is_losing, summarize}

not_losing : (m : MarketAccounting) → is_winning m ≡ true → is_losing m ≡ false
unfolding is_winning is_losing
not_losing m h = ground arith

is_flat :
    (m : MarketAccounting) → is_winning m ≡ false → is_losing m ≡ false → pnl_or_zero m ≡ pos 0
unfolding is_winning is_losing
is_flat m h k = ground arith

winner_gains : (m : MarketAccounting) → is_winning m ≡ true → pos 0 ≤ℤ pnl_or_zero m
unfolding is_winning
winner_gains m h = ground arith

loser_loses : (m : MarketAccounting) → is_losing m ≡ true → pnl_or_zero m ≤ℤ pos 0
unfolding is_losing
loser_loses m h = ground arith

net-eq-gross :
    (ms : List MarketAccounting)
    → sum_ℤ pnl_or_zero (filter is_winning ms) +ℤ sum_ℤ pnl_or_zero (filter is_losing ms)
      ≡ sum_ℤ pnl_or_zero ms
net-eq-gross [] = omega int_laws
net-eq-gross (m ∷ ms) = grind (int_laws, net-eq-gross ms, not_losing m, is_flat m)

length-filter-not :
    (p : MarketAccounting → Bool) (ms : List MarketAccounting)
    → length (filter p ms) + length (filter (λ m. not (p m)) ms) ≡ length ms
length-filter-not p [] = omega arith
length-filter-not p (m ∷ ms) = ground (arith, length-filter-not p ms)

winners_nonneg : (ms : List MarketAccounting) → pos 0 ≤ℤ sum_ℤ pnl_or_zero (filter is_winning ms)
winners_nonneg [] = omega arith
winners_nonneg (m ∷ ms) =
    let rest = winners_nonneg ms in
    elim (Bool-cases (is_winning m)) [
      | inl won ↦ let gain = winner_gains m won in rw won (omega int_laws)
      | inr not_won ↦ rw not_won rest
    ]

losers_nonpos : (ms : List MarketAccounting) → sum_ℤ pnl_or_zero (filter is_losing ms) ≤ℤ pos 0
losers_nonpos [] = omega arith
losers_nonpos (m ∷ ms) =
    let rest = losers_nonpos ms in
    elim (Bool-cases (is_losing m)) [
      | inl lost ↦ let loss = loser_loses m lost in rw lost (omega int_laws)
      | inr not_lost ↦ rw not_lost rest
    ]

difference : (a b c : ℤ) → a +ℤ b ≡ c → c ≡ a -ℤ (pos 0 -ℤ b)
difference a b c h = omega (int_laws, ap pos_part h, ap neg_part h)

negated : (a : ℤ) → a ≤ℤ pos 0 → pos 0 ≤ℤ (pos 0 -ℤ a)
negated a h = omega int_laws

-- The roll-up of any markets is consistent: the P&L is the gross profit less the gross loss, neither
-- of which is negative; the settled and the open markets are all the markets; and no more markets
-- win than are settled.
pub summarize_consistent :
    (ms : List MarketAccounting)
    → let s = summarize ms in
      (s.realized_pnl ≡ s.gross_profit -ℤ s.gross_loss)
      × (pos 0 ≤ℤ s.gross_profit)
      × (pos 0 ≤ℤ s.gross_loss)
      × (s.settled_market_count + s.open_market_count ≡ length ms)
      × (s.winning_market_count ≤ s.settled_market_count)
unfolding summarize
summarize_consistent ms =
    let resolved = filter (λ (m : MarketAccounting). m.resolved) ms in
    let net = net-eq-gross resolved in
    let won = winners_nonneg resolved in
    let lost = losers_nonpos resolved in
    (
      difference _ _ _ net,
      won,
      negated _ lost,
      length-filter-not (λ m. m.resolved) ms,
      length-filter is_winning resolved,
    )
