-- ===== src/Bankroll/Sweep.antt =====
-- What a profit sweep of backend/src/polycopy/bankroll.py moves.
use poly.Prelude.{
  ◌≡◌, refl, arith, ℤ, pos, ◌+ℤ◌, ◌-ℤ◌, ◌≤ℤ◌, ◌<ℤ◌, int_laws, max_ℤ, ap, pos_part, neg_part, inl,
  inr, ◌⊎◌,
}
use poly.Bankroll.{
  BankrollAccount, balance, BankrollSettings, Bankroll, get_bankroll_account, unwithdrawn_profit,
  withdraw_profit, sweep_profit_if_due,
}
use poly.Bankroll.Outcomes.{sweep_cases}

-- What a sweep at a cost of open positions has done to the account, by the amount that it reports.
abbrev pub Swept : ℤ → BankrollAccount → BankrollAccount → ℤ → Type 0
Swept cost a a' amount =
    (pos 0 ≤ℤ amount)
    × (a'.withdrawn_total ≡ a.withdrawn_total +ℤ amount)
    × (a'.realized_pnl_total ≡ a.realized_pnl_total)
    × (a'.starting_bankroll_usd ≡ a.starting_bankroll_usd)
    × ((amount ≡ pos 0) ⊎ ((a'.withdrawn_total ≤ℤ a'.realized_pnl_total) × (cost ≤ℤ balance a')))

below_max : (amount z : ℤ) → pos 0 <ℤ amount → amount ≤ℤ max_ℤ (pos 0) z → amount ≤ℤ z
below_max amount z p q = ground arith

exact_max : (amount z : ℤ) → amount ≡ max_ℤ (pos 0) z → pos 0 <ℤ amount → amount ≡ z
exact_max amount z e p = ground arith

stays : (a : ℤ) → a ≡ a +ℤ pos 0
stays a = omega int_laws

withdraw_profit-Swept :
    (s : BankrollSettings) (cost limit amount : ℤ) (a : BankrollAccount) (b : Bankroll)
    → pos 0 <ℤ amount
    → amount ≤ℤ unwithdrawn_profit a
    → amount ≤ℤ (balance a -ℤ cost)
    → Swept cost a (get_bankroll_account s (withdraw_profit limit amount a b)) amount
unfolding withdraw_profit get_bankroll_account balance unwithdrawn_profit
withdraw_profit-Swept s cost limit amount a b p q r =
    let small = below_max amount (a.realized_pnl_total -ℤ a.withdrawn_total) p q in
    (omega int_laws, refl, refl, refl, inr (omega int_laws, omega int_laws))

-- A sweep never moves a negative amount, touches no total but the withdrawn one, and if it moves
-- anything, then not more than the realized profit in all, and not so much that the balance would no
-- longer cover the open positions.
pub sweep_profit_if_due-Swept :
    (s : BankrollSettings) (cost : ℤ) (b : Bankroll)
    → let (b', amount) = sweep_profit_if_due s cost b in
      Swept cost (get_bankroll_account s b) (get_bankroll_account s b') amount
sweep_profit_if_due-Swept s cost b =
    let a = get_bankroll_account s b in
    sweep_cases s cost b (λ (p : Bankroll × ℤ). Swept cost a (get_bankroll_account s p.0) p.1)
      (λ pending. unfold get_bankroll_account in (omega arith, stays _, refl, refl, inl refl))
      (λ limit amount p q r exact. withdraw_profit-Swept s cost limit amount a b p q r)

-- After a withdrawal nothing is left to sweep: no profit, or no free cash.
withdraw_profit_spent :
    (s : BankrollSettings) (cost limit amount again : ℤ) (a : BankrollAccount) (b : Bankroll)
    → (amount ≡ unwithdrawn_profit a) ⊎ (amount ≡ balance a -ℤ cost)
    → pos 0 <ℤ amount
    → let a' = get_bankroll_account s (withdraw_profit limit amount a b) in
      pos 0 <ℤ again → again ≤ℤ unwithdrawn_profit a' → again ≤ℤ (balance a' -ℤ cost) → ⊥
unfolding withdraw_profit get_bankroll_account balance unwithdrawn_profit
withdraw_profit_spent s cost limit amount again a b (inl profit) pos_amount p q r =
    let small = below_max again (a.realized_pnl_total -ℤ (a.withdrawn_total +ℤ amount)) p q in
    let whole = exact_max amount (a.realized_pnl_total -ℤ a.withdrawn_total) profit pos_amount in
    omega (int_laws, ap pos_part whole, ap neg_part whole)
withdraw_profit_spent s cost limit amount again a b (inr cash) pos_amount p q r =
    omega (int_laws, ap pos_part cash, ap neg_part cash)

-- A sweep that has moved something leaves nothing for a second sweep at the same cost of open
-- positions, also when the first was partial and left the pending mark: nothing is withdrawn twice.
pub sweep_twice :
    (s : BankrollSettings) (cost : ℤ) (b : Bankroll)
    → pos 0 <ℤ (sweep_profit_if_due s cost b).1
    → (sweep_profit_if_due s cost (sweep_profit_if_due s cost b).0).1 ≡ pos 0
sweep_twice s cost b =
    sweep_cases s cost b
      (λ (p : Bankroll × ℤ). pos 0 <ℤ p.1 → (sweep_profit_if_due s cost p.0).1 ≡ pos 0)
      (λ pending h. absurd (omega arith))
      (λ limit amount p q r exact h.
        sweep_cases s cost (withdraw_profit limit amount (get_bankroll_account s b) b)
          (λ (p : Bankroll × ℤ). p.1 ≡ pos 0) (λ pending. refl)
          (λ limit' again p' q' r' _. absurd (
            withdraw_profit_spent s cost limit amount again (get_bankroll_account s b) b exact p p'
              q' r')))
