-- ===== src/Bookwalk/Price.antt =====
-- What a walk of backend/src/polycopy/execution/bookwalk.py pays.
use native.Mathlib.Nat.{mul-le-mul, div-add-mod, mod-lt, le_refl}
use native.Mathlib.Decide.{dec_le}
use poly.Prelude.{
  ℕ, ◌+◌, ◌*◌, ◌/◌, ◌≤◌, ◌<◌, ◌≡◌, refl, false, List, [], ◌∷◌, arith, ◌==◌, Bool-cases, ==_iff, inl,
  inr, ◌⊎◌, All,
}
use poly.Decimals.{Decimals, IsRounded, le-quotient, quotient-le}
use poly.Bookwalk.{Level, Walk, cap_reached, take_at, walk_level, walk_levels}
use poly.Bookwalk.Bounds.{take-le-quotient}

-- The notional lies between the shares at the lowest and at the highest price.
abbrev Priced : ℕ → ℕ → Walk → Type 0
Priced lo hi w = (lo * w.shares ≤ w.notional) × (w.notional ≤ hi * w.shares)

abbrev pub InRange : ℕ → ℕ → Level → Type 0
InRange lo hi l = (lo ≤ l.price) × (l.price ≤ hi)

module _ (d : Decimals) (lo hi : ℕ) where
  walk_level-Priced :
      (w : Walk) (l : Level) → InRange lo hi l → Priced lo hi w → Priced lo hi (walk_level d w l)
  unfolding walk_level
  walk_level-Priced w l (above, below) (low, high) =
      let take = take_at d w l in
      let floor : lo * take ≤ take * l.price = grind arith in
      let ceiling : take * l.price ≤ hi * take = grind arith in (omega arith, omega arith)

  pub walk_levels-Priced :
      (ls : List Level) (w : Walk)
      → All (InRange lo hi) ls
      → Priced lo hi w
      → Priced lo hi (walk_levels d w ls)
  unfolding walk_levels
  walk_levels-Priced [] w ok priced = priced
  walk_levels-Priced (l ∷ ls) w (ok, oks) priced = elim (Bool-cases (w.remaining_usd == 0)) [
    | inl e ↦ rw e priced
    | inr e ↦ elim (Bool-cases (cap_reached w.remaining_shares)) [
      | inl f ↦ rw (e, f) priced
      | inr f ↦
          rw (e, f) (walk_levels-Priced ls (walk_level d w l) oks (walk_level-Priced w l ok priced))
    ]
  ]

-- What has been spent of the money: exactly what is no longer left, or, once the money has run out,
-- all of it, up to one price unit of rounding for one share unit.
abbrev pub Budget : ℕ → ℕ → Walk → Type 0
Budget one size w =
    (w.notional + w.remaining_usd ≡ size)
    ⊎ ((w.remaining_usd ≡ 0) × (w.notional ≤ size + one) × (size ≤ w.notional + one))

module _ (d : Decimals) (laws : IsRounded d) where
  -- The shares that some money buys cost that money, up to the price of one share unit.
  affordable-cost : (r p : ℕ) → 0 < p → (d.quotient r p * p ≤ r + p) × (r ≤ d.quotient r p * p + p)
  affordable-cost r p h =
      let whole = div-add-mod r p in
      let rest = mod-lt r h in
      let low : r / p ≤ d.quotient r p = le-quotient d laws (r / p) r p h (omega arith) in
      let high : d.quotient r p ≤ r / p + 1 = quotient-le d laws (r / p + 1) r p h (omega arith) in
      (omega (arith, mul-le-mul high (le_refl p)), omega (arith, mul-le-mul low (le_refl p)))

  -- A level at which the money does not run out costs no more than the money that is left, so the
  -- subtraction of the loop does not go below zero.
  cost-le :
      (w : Walk) (l : Level)
      → 0 < l.price
      → (take_at d w l == d.quotient w.remaining_usd l.price) ≡ false
      → take_at d w l * l.price ≤ w.remaining_usd
  cost-le w l p ne = elim (dec_le (take_at d w l * l.price) w.remaining_usd) [
    | yes fits ↦ fits
    | no over ↦
        let below = take-le-quotient d w l in
        let above = quotient-le d laws (take_at d w l) w.remaining_usd l.price p (omega arith) in
        absurd (ground arith)
  ]

  walk_level-Budget :
      (size : ℕ) (w : Walk) (l : Level)
      → InRange 1 d.one l
      → w.notional + w.remaining_usd ≡ size
      → Budget d.one size (walk_level d w l)
  unfolding walk_level
  walk_level-Budget size w l (low, high) exact =
      elim (Bool-cases (take_at d w l == d.quotient w.remaining_usd l.price)) [
        | inl bound ↦
            let cost = affordable-cost w.remaining_usd l.price low in
            let same = (==_iff _ _).0 bound in
            let cost' = rw (← same) at cost in rw bound (inr (refl, omega arith, omega arith))
        | inr free ↦ let fits = cost-le w l low free in rw free (inl (omega arith))
      ]

  -- With a correctly rounded quotient, a walk over levels with prices in (0, 1] that starts with its
  -- money accounted for ends so: what it has spent and what is left are the money exactly, or the money
  -- has run out and all of it is spent, up to one dollar price of a single share unit.
  pub walk_levels-Budget :
      (size : ℕ) (ls : List Level) (w : Walk)
      → All (InRange 1 d.one) ls
      → Budget d.one size w
      → Budget d.one size (walk_levels d w ls)
  unfolding walk_levels
  walk_levels-Budget size [] w ok budget = budget
  walk_levels-Budget size (l ∷ ls) w (ok, oks) budget = elim (Bool-cases (w.remaining_usd == 0)) [
    | inl e ↦ rw e budget
    | inr e ↦ elim (Bool-cases (cap_reached w.remaining_shares)) [
      | inl f ↦ rw (e, f) budget
      | inr f ↦
          rw (e, f)
            (walk_levels-Budget size ls (walk_level d w l) oks (
              walk_level-Budget size w l ok
                (elim budget [ inl exact ↦ exact | inr spent ↦ absurd (ground arith) ])))
    ]
  ]
