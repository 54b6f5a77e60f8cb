-- ===== src/Bankroll/Outcomes.antt =====
-- The ways a profit sweep of backend/src/polycopy/bankroll.py can end.
use poly.Prelude.{
  ◌≡◌, ◌⊎◌, Bool, false, not, ◌&&◌, none, some, arith, if◌then◌else◌, ℤ, pos, ◌-ℤ◌, ◌≤ℤ◌, ◌<ℤ◌,
  leb_ℤ, ltb_ℤ, max_ℤ, min_ℤ, if_case,
}
use poly.Bankroll.{
  BankrollAccount, balance, BankrollSettings, Bankroll, get_bankroll_account, unwithdrawn_profit,
  withdraw_profit, sweep_account, sweep_profit_if_due,
}

-- An amount that is swept is positive, and is covered by the profit and by the free cash.
amount_bounds :
    (profit cash : ℤ)
    → leb_ℤ (min_ℤ profit (max_ℤ (pos 0) cash)) (pos 0) ≡ false
    → let amount = min_ℤ profit (max_ℤ (pos 0) cash) in
      (pos 0 <ℤ amount)
      × (amount ≤ℤ profit)
      × (amount ≤ℤ cash)
      × ((amount ≡ profit) ⊎ (amount ≡ cash))
amount_bounds profit cash h = ground arith

sweep_account_cases {ℓ} :
    (cost limit : ℤ) (a : BankrollAccount) (b : Bankroll) (P : Bankroll × ℤ → Type ℓ)
    → ((pending : Bool)
        → P (record b { account = some (record a { sweep_pending = pending }) }, pos 0))
    → ((amount : ℤ)
        → pos 0 <ℤ amount
        → amount ≤ℤ unwithdrawn_profit a
        → amount ≤ℤ (balance a -ℤ cost)
        → (amount ≡ unwithdrawn_profit a) ⊎ (amount ≡ balance a -ℤ cost)
        → P (withdraw_profit limit amount a b, amount))
    → P (sweep_account cost limit a b)
unfolding sweep_account
sweep_account_cases cost limit a b P stay move =
    let unwithdrawn = unwithdrawn_profit a in
    let amount = min_ℤ unwithdrawn (max_ℤ (pos 0) (balance a -ℤ cost)) in
    let same : Bankroll × ℤ = (record b { account = some a }, pos 0) in
    let out : Bankroll × ℤ = (withdraw_profit limit amount a b, amount) in
    let last : Bankroll × ℤ = if leb_ℤ amount (pos 0) then same else out in
    if_case P (leb_ℤ unwithdrawn (pos 0)) _
      (if not a.sweep_pending && ltb_ℤ unwithdrawn limit then same else last) (λ _. stay false)
      (λ _.
        if_case P (not a.sweep_pending && ltb_ℤ unwithdrawn limit) same last
          (λ _. stay a.sweep_pending)
          (λ _.
            if_case P (leb_ℤ amount (pos 0)) same out (λ _. stay a.sweep_pending)
              (λ positive.
                let (p, q, r, exact) = amount_bounds unwithdrawn (balance a -ℤ cost) positive in
                move amount p q r exact)))

-- A sweep leaves all but the pending mark as it is and reports 0, or it withdraws an amount that is
-- positive and covered, and that takes the whole profit or the whole free cash.
pub sweep_cases {ℓ} :
    (s : BankrollSettings) (cost : ℤ) (b : Bankroll) (P : Bankroll × ℤ → Type ℓ)
    → ((pending : Bool)
        → let a = get_bankroll_account s b in
          P (record b { account = some (record a { sweep_pending = pending }) }, pos 0))
    → ((limit amount : ℤ)
        → let a = get_bankroll_account s b in
          pos 0 <ℤ amount
          → amount ≤ℤ unwithdrawn_profit a
          → amount ≤ℤ (balance a -ℤ cost)
          → (amount ≡ unwithdrawn_profit a) ⊎ (amount ≡ balance a -ℤ cost)
          → P (withdraw_profit limit amount a b, amount))
    → P (sweep_profit_if_due s cost b)
unfolding sweep_profit_if_due
sweep_cases s cost b P stay move =
    let a = get_bankroll_account s b in
    let same : Bankroll × ℤ = (record b { account = some a }, pos 0) in
    elim a.profit_limit_usd
      as (λ l. P (elim l [
        | none ↦ same
        | some limit ↦ if leb_ℤ limit (pos 0) then same else sweep_account cost limit a b
      ])) [
        | none ↦ stay a.sweep_pending
        | some limit ↦
            if_case P (leb_ℤ limit (pos 0)) same (sweep_account cost limit a b)
              (λ _. stay a.sweep_pending)
              (λ _. sweep_account_cases cost limit a b P stay (move limit))
      ]
