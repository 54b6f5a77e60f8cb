-- ===== src/Bookwalk/Bounds.antt =====
-- What a walk of backend/src/polycopy/execution/bookwalk.py takes from the book.
use poly.Prelude.{
  ℕ, ◌+◌, ◌≤◌, ◌≡◌, refl, true, Option, none, some, List, [], ◌∷◌, arith, ◌==◌, length, Bool-cases,
  inl, inr, ◌⊎◌, ◌∙◌,
}
use poly.Decimals.{Decimals}
use poly.Bookwalk.{Level, Walk, cap_reached, depth, take_at, walk_level, walk_levels}

-- The walk that began at `w` has taken some of the levels and has stopped at `w'`.
pub record Walked (ls : List Level) (w w' : Walk) : Type 0 where
  pub grows : w.shares ≤ w'.shares
  pub in_depth : w'.shares ≤ w.shares + depth ls
  pub counted : w'.used ≤ w.used + length ls
  pub stops :
      (w'.remaining_usd ≡ 0)
      ⊎ (cap_reached w'.remaining_shares ≡ true)
      ⊎ (w'.shares ≡ w.shares + depth ls)

module _ (d : Decimals) where
  take-le-size : (w : Walk) (l : Level) → take_at d w l ≤ l.size
  unfolding take_at
  take-le-size w l = ground arith

  pub take-le-quotient : (w : Walk) (l : Level) → take_at d w l ≤ d.quotient w.remaining_usd l.price
  unfolding take_at
  take-le-quotient w l = ground arith

  -- A level is taken whole, or the money or the cap ran out at it.
  take_cases :
      (w : Walk) (l : Level)
      → (take_at d w l ≡ l.size)
        ⊎ ((walk_level d w l).remaining_usd ≡ 0)
        ⊎ (cap_reached (walk_level d w l).remaining_shares ≡ true)
  unfolding walk_level
  take_cases w l = ground arith

  walk_levels_stopped :
      (w : Walk) (ls : List Level)
      → (w.remaining_usd ≡ 0) ⊎ (cap_reached w.remaining_shares ≡ true)
      → walk_levels d w ls ≡ w
  unfolding walk_levels
  walk_levels_stopped w [] h = refl
  walk_levels_stopped w (l ∷ ls) (inl h) = rw h
  walk_levels_stopped w (l ∷ ls) (inr h) = elim (Bool-cases (w.remaining_usd == 0)) [
    | inl e ↦ rw e
    | inr e ↦ rw (e, h)
  ]

  Walked-cons :
      (w : Walk) (l : Level) (ls : List Level) {w' : Walk}
      → (((walk_level d w l).remaining_usd ≡ 0)
            ⊎ (cap_reached (walk_level d w l).remaining_shares ≡ true)
          → w' ≡ walk_level d w l)
      → Walked ls (walk_level d w l) w'
      → Walked (l ∷ ls) w w'
  Walked-cons w l ls {w' = w'} halts h = record {
    grows = omega (arith, shares-walk_level, h.grows);
    in_depth = omega (arith, shares-walk_level, h.in_depth, take-le-size w l);
    counted = omega (arith, used-walk_level, h.counted);
    stops = elim (take_cases w l) [
      | inl whole ↦ elim h.stops [
        | inl broke ↦ inl broke
        | inr (inl full) ↦ inr (inl full)
        | inr (inr done) ↦ inr (inr (omega (arith, shares-walk_level)))
      ]
      | inr (inl broke) ↦ inl (rw (halts (inl broke)) broke)
      | inr (inr full) ↦ inr (inl (rw (halts (inr full)) full))
    ];
  }
    where
      shares-walk_level : (walk_level d w l).shares ≡ w.shares + take_at d w l
      shares-walk_level = unfold walk_level in refl

      used-walk_level : (walk_level d w l).used ≡ w.used + 1
      used-walk_level = unfold walk_level in refl

  pub walk_levels-Walked : (ls : List Level) (w : Walk) → Walked ls w (walk_levels d w ls)
  unfolding walk_levels
  walk_levels-Walked [] w = ground arith
  walk_levels-Walked (l ∷ ls) w = elim (Bool-cases (w.remaining_usd == 0)) [
    | inl e ↦ rw e (ground arith)
    | inr e ↦ elim (Bool-cases (cap_reached w.remaining_shares)) [
      | inl f ↦ rw (e, f) (ground arith)
      | inr f ↦
          rw (e, f)
            (Walked-cons w l ls (walk_levels_stopped (walk_level d w l) ls)
              (walk_levels-Walked ls (walk_level d w l)))
    ]
  ]

-- The shares taken and those that the cap still allows, added up.
abbrev allowance : Walk → Option ℕ
allowance w = elim w.remaining_shares [ none ↦ none | some cap ↦ some (cap + w.shares) ]

module _ (d : Decimals) where
  walk_level-allowance : (w : Walk) (l : Level) → allowance (walk_level d w l) ≡ allowance w
  unfolding walk_level
  walk_level-allowance w l = ground arith

  -- The walk spends its share cap exactly.
  pub walk_levels-allowance :
      (ls : List Level) (w : Walk) → allowance (walk_levels d w ls) ≡ allowance w
  unfolding walk_levels
  walk_levels-allowance [] w = refl
  walk_levels-allowance (l ∷ ls) w = elim (Bool-cases (w.remaining_usd == 0)) [
    | inl e ↦ rw e
    | inr e ↦ elim (Bool-cases (cap_reached w.remaining_shares)) [
      | inl f ↦ rw (e, f)
      | inr f ↦ rw (e, f) (walk_levels-allowance ls (walk_level d w l) ∙ walk_level-allowance w l)
    ]
  ]
