-- ===== src/Execution/Resolved.antt =====
-- What `settle_paper_positions` of backend/src/polycopy/execution/service.py makes of each position.
use native.Mathlib.Nat.{mul-add}
use poly.Prelude.{
  ltb, false, ◌+◌, pos_part, neg_part, -ℤ_parts, eq_of_parts, Bool-cases, inl, inr, ℤ, pos, ◌+ℤ◌,
  ◌-ℤ◌, ◌*ℤ◌, ◌*◌, ◌==◌, if◌then◌else◌, ℕ, ◌≡◌, refl, Option, none, some, List, [], ◌∷◌, arith, map,
  ◌∙◌, sym, ap,
}
use poly.Decimals.{Decimals}
use poly.Execution.Store.{Position, Settlement, Store, Settings, find, is_open}
use poly.Execution.Settle.{due, settlement_pnl, settle_position, settle_paper_positions}
use poly.Execution.Settled.{settled_version, version, settle_paper_positions-versions}

-- What the shares of a position pay: a winning share 1 dollar and a losing one nothing.
abbrev pub payout : ℕ → Settlement → Position → ℕ
payout one t p = if p.outcome == t.winning_outcome then p.quantity * one else 0

-- The payout less the cost.
abbrev pub profit : ℕ → Settlement → Position → ℤ
profit one t p = pos (payout one t p) -ℤ pos (p.quantity * p.avg_price)

-- A position after its market is resolved: its shares are gone, and their profit is realized.
abbrev pub paid_out : ℕ → ℕ → Position → Option Settlement → Position
paid_out one now p none = p
paid_out one now p (some t) = if p.quantity == 0 then p else record p {
  settlement_realized_pnl = some (profit one t p);
  realized_pnl = p.realized_pnl +ℤ profit one t p;
  quantity = 0;
  settled_at = some now;
}

-- Only an unsettled position is resolved, by the settlement of its market.
abbrev pub if_unsettled : ℕ → ℕ → List Settlement → Position → Position
if_unsettled one now settlements p = elim p.settled_at [
  | some at ↦ p
  | none ↦ paid_out one now p (find (λ (t : Settlement). t.market_id == p.market_id) settlements)
]

*ℤ_parts :
    (q : ℕ) (z : ℤ)
    → pos_part (pos q *ℤ z) + q * neg_part z ≡ neg_part (pos q *ℤ z) + q * pos_part z
unfolding ◌*ℤ◌
*ℤ_parts q z = ground arith

mul_both : (q u v x y : ℕ) → u + x ≡ v + y → q * u + q * x ≡ q * v + q * y
mul_both q u v x y h = sym (mul-add q u x) ∙ ap (λ n. q * n) h ∙ mul-add q v y

mul_sub : (q s a : ℕ) → pos q *ℤ (pos s -ℤ pos a) ≡ pos (q * s) -ℤ pos (q * a)
mul_sub q s a =
    let z = pos s -ℤ pos a in
    let difference = -ℤ_parts (pos s) (pos a) in
    let both = mul_both q (pos_part z) (neg_part z) a s (omega (arith, difference)) in
    eq_of_parts (pos q *ℤ z) (pos (q * s) -ℤ pos (q * a))
      (omega (arith, *ℤ_parts q z, -ℤ_parts (pos (q * s)) (pos (q * a)), both))

times_zero : (q : ℕ) → q * 0 ≡ 0
times_zero q = omega arith

settlement_pnl-profit :
    (one : ℕ) (t : Settlement) (p : Position) → settlement_pnl one t p ≡ profit one t p
unfolding settlement_pnl
settlement_pnl-profit one t p = elim (Bool-cases (p.outcome == t.winning_outcome)) [
  | inl won ↦ rw won (mul_sub p.quantity one p.avg_price)
  | inr lost ↦ rw lost (
      mul_sub p.quantity 0 p.avg_price
      ∙ ap (λ n. pos n -ℤ pos (p.quantity * p.avg_price)) (times_zero p.quantity))
]

with_profit : ℕ → Position → ℤ → Position
with_profit now p pnl = record p {
  settlement_realized_pnl = some pnl;
  realized_pnl = p.realized_pnl +ℤ pnl;
  quantity = 0;
  settled_at = some now;
}

settle_position-profit :
    (one now : ℕ) (t : Settlement) (p : Position)
    → settle_position one now t p ≡ with_profit now p (profit one t p)
unfolding settle_position with_profit
settle_position-profit one now t p = ap (with_profit now p) (settlement_pnl-profit one t p)

-- By the mark of the position and the settlement of its market.
version_cases :
    (one now : ℕ) (p : Position) (settled : Option ℕ) (found : Option Settlement)
    → version one now p
        (if elim settled [ none ↦ ltb 0 p.quantity | some _ ↦ false ] then found else none)
      ≡ elim settled [ some at ↦ p | none ↦ paid_out one now p found ]
unfolding with_profit
version_cases one now p (some at) found = refl
version_cases one now p none none = ground arith
version_cases one now p none (some t) = ground (arith, settle_position-profit one now t p)

version-settled :
    (one now : ℕ) (settlements : List Settlement) (p : Position)
    → settled_version one now settlements p ≡ version one now p (due settlements p)
unfolding settled_version
version-settled one now settlements p = version_elim (due settlements p)
  where
    version_elim :
        (o : Option Settlement)
        → elim o [ none ↦ p | some t ↦ settle_position one now t p ] ≡ version one now p o
    version_elim none = refl
    version_elim (some t) = refl

settled_version-if_unsettled :
    (one now : ℕ) (settlements : List Settlement) (p : Position)
    → settled_version one now settlements p ≡ if_unsettled one now settlements p
unfolding due is_open
settled_version-if_unsettled one now settlements p =
    version-settled one now settlements p
    ∙ version_cases one now p p.settled_at
        (find (λ (t : Settlement). t.market_id == p.market_id) settlements)

map_ext :
    (f g : Position → Position) (ps : List Position)
    → ((p : Position) → f p ≡ g p)
    → map f ps ≡ map g ps
map_ext f g [] h = refl
map_ext f g (p ∷ ps) h = rw (h p, map_ext f g ps h) refl

-- Settlement resolves exactly the positions that hold shares, are not settled and whose market has a
-- settlement, and leaves all others as they are: a winning share pays 1 dollar, a losing one nothing,
-- the payout less the cost is the position's settlement profit and is added to its realized one, no
-- share is left, and the time is marked. These are the amounts before the columns round them.
pub settle_paper_positions-positions :
    (d : Decimals) (st : Settings) (now : ℕ) (db : Store)
    → (settle_paper_positions d st now db).0.positions
      ≡ map (if_unsettled d.one now db.settlements) db.positions
settle_paper_positions-positions d st now db =
    settle_paper_positions-versions d st now db
    ∙ map_ext (settled_version d.one now db.settlements) (if_unsettled d.one now db.settlements)
        db.positions (settled_version-if_unsettled d.one now db.settlements)
