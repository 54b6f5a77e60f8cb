-- ===== src/Bookwalk/Fill.antt =====
-- What `walk_book` of backend/src/polycopy/execution/bookwalk.py reports of a walk.
use native.Mathlib.Decide.{dec_lt}
use poly.Prelude.{
  ℕ, ◌≤◌, ◌<◌, ◌≡◌, ◌≢◌, refl, true, Option, none, some, List, arith, length, All, Bool-cases, inl,
  inr, ◌⊎◌, ◌==◌,
}
use poly.Decimals.{Decimals, IsRounded, le-quotient, quotient-le}
use poly.Bookwalk.{
  BookLevel, Level, Side, FillStatus, FillResult, WalkError, WalkResult, Walk, depth, cap_reached,
  start, walk_levels, fill_levels, book_side, walk_book,
}
use poly.Bookwalk.Bounds.{walk_levels-Walked, walk_levels-allowance}
use poly.Bookwalk.Price.{InRange, walk_levels-Priced}

abbrev pub WithinCap : Option ℕ → ℕ → Type 0
WithinCap none shares = Unit
WithinCap (some cap) shares = shares ≤ cap

-- All the shares that the cap allows.
abbrev IsCap : Option ℕ → ℕ → Type 0
IsCap none shares = ⊥
IsCap (some cap) shares = shares ≡ cap

-- What each status says of the shares that were taken and of the money that the walk has left.
abbrev StatusOf : List Level → Option ℕ → Walk → FillResult → FillStatus → Type 0
StatusOf levels cap w r FillStatus.missed = (r.filled_size ≡ 0) × (r.fill_price ≡ none)
StatusOf levels cap w r FillStatus.filled =
    (0 < r.filled_size) × (r.depth_available ≡ depth levels) × (w.remaining_usd ≡ 0)
StatusOf levels cap w r FillStatus.partial =
    (0 < r.filled_size)
    × (r.depth_available ≡ depth levels)
    × (0 < w.remaining_usd)
    × ((r.filled_size ≡ depth levels) ⊎ IsCap cap r.filled_size)

-- What a result says of the offered levels and of the walk over them.
abbrev pub FillOf : List Level → Option ℕ → Walk → FillResult → Type 0
FillOf levels cap w r =
    (r.filled_size ≤ depth levels)
    × WithinCap cap r.filled_size
    × (r.levels_consumed ≤ length levels)
    × (r.filled_size ≡ w.shares)
    × StatusOf levels cap w r r.status

priced_fill :
    (levels : List Level) (cap : Option ℕ) (w : Walk) (r : FillResult) (s : FillStatus) {v : ℕ}
    → StatusOf levels cap w r s
    → r.fill_price ≡ some v
    → 0 < r.filled_size
priced_fill levels cap w r FillStatus.missed h e = ground arith
priced_fill levels cap w r FillStatus.filled h e = h.0
priced_fill levels cap w r FillStatus.partial h e = h.0

module _ (d : Decimals) where
  walk_levels-WithinCap :
      (size : ℕ) (levels : List Level) (cap : Option ℕ)
      → let w = walk_levels d (start d size cap) levels in
        WithinCap cap w.shares × (cap_reached w.remaining_shares ≡ true → IsCap cap w.shares)
  unfolding start
  walk_levels-WithinCap size levels none =
      ground (arith, walk_levels-allowance d levels (start d size none))
  walk_levels-WithinCap size levels (some cap) =
      ground (arith, walk_levels-allowance d levels (start d size (some cap)))

  -- The walk never takes more than the depth of the offer or than the cap, and consumes no level
  -- that is not offered. A miss takes nothing and has no price. Any other result takes something and
  -- reports the whole depth; a filled one has no money left, and a partial one has some left and has
  -- taken the whole offer, or the cap.
  pub fill_levels-FillOf :
      (size : ℕ) (levels : List Level) (cap : Option ℕ)
      → FillOf levels cap (walk_levels d (start d size cap) levels) (fill_levels d size levels cap)
  unfolding fill_levels
  fill_levels-FillOf size levels cap =
      let walked = walk_levels-Walked d levels (start d size cap) in
      let kept = walk_levels-WithinCap size levels cap in ground (arith)

  pub fill_levels_positive :
      (size : ℕ) (levels : List Level) (cap : Option ℕ) {v : ℕ}
      → (fill_levels d size levels cap).fill_price ≡ some v
      → 0 < (fill_levels d size levels cap).filled_size
  fill_levels_positive size levels cap e =
      let r = fill_levels d size levels cap in
      priced_fill levels cap (walk_levels d (start d size cap) levels) r r.status
        (fill_levels-FillOf size levels cap).4 e

  -- On a positive notional and a known side `walk_book` reports a walk over the valid levels of the
  -- side that the order consumes. It takes no more than their depth or the cap and consumes no more
  -- levels than there are. A miss takes nothing and has no price; any other result takes something
  -- and reports the whole depth; it is filled exactly if the walk has no money left, and a partial one,
  -- with money left, has taken the whole depth, or the cap.
  pub walk_book-FillOf :
      (side : Side) (size : ℕ) (bids asks : List BookLevel) (cap : Option ℕ)
      → 0 < size
      → side ≢ Side.other_side
      → (r : FillResult) × (walk_book d side size bids asks cap ≡ WalkResult.walked r)
        × FillOf
            (book_side d side bids asks)
            cap
            (walk_levels d (start d size cap) (book_side d side bids asks))
            r
  unfolding walk_book
  walk_book-FillOf side size bids asks cap pos known = (
    fill_levels d size (book_side d side bids asks) cap,
    walks side pos known,
    fill_levels-FillOf size (book_side d side bids asks) cap,
  )
    where
      walks :
          (s : Side)
          → 0 < size
          → s ≢ Side.other_side
          → walk_book d s size bids asks cap
            ≡ WalkResult.walked (fill_levels d size (book_side d s bids asks) cap)
      walks Side.buy pos known = ground arith
      walks Side.sell pos known = ground arith
      walks Side.other_side pos known = absurd (known refl)

  -- `walk_book` raises on a notional that is not positive and on an unknown side.
  pub walk_book_raises :
      (side : Side) (size : ℕ) (bids asks : List BookLevel) (cap : Option ℕ)
      → (size ≡ 0) ⊎ (side ≡ Side.other_side)
      → (e : WalkError) × (walk_book d side size bids asks cap ≡ WalkResult.raised e)
  unfolding walk_book
  walk_book_raises side size bids asks cap (inl zero_size) =
      (WalkError.size_not_positive, rw zero_size)
  walk_book_raises side size bids asks cap (inr unknown) = elim (Bool-cases (size == 0)) [
    | inl e ↦ (WalkError.size_not_positive, rw e)
    | inr e ↦ (WalkError.bad_side, rw (e, unknown))
  ]

module _ (d : Decimals) (laws : IsRounded d) where
  -- With a correctly rounded quotient and exact sums and products, if all levels that are walked have
  -- prices from `lo` to `hi`, so has the fill price.
  pub fill_levels_price :
      (lo hi size : ℕ) (levels : List Level) (cap : Option ℕ) {v : ℕ}
      → All (InRange lo hi) levels
      → (fill_levels d size levels cap).fill_price ≡ some v
      → (lo ≤ v) × (v ≤ hi)
  unfolding fill_levels start
  fill_levels_price lo hi size levels cap range e =
      let w : Walk = walk_levels d (start d size cap) levels in
      let priced = walk_levels-Priced d lo hi levels (start d size cap) range (omega arith) in
      elim (dec_lt 0 w.shares) [
        | yes pos ↦
            let above = le-quotient d laws lo w.notional w.shares pos priced.0 in
            let below = quotient-le d laws hi w.notional w.shares pos priced.1 in ground arith
        | no nothing ↦ ground arith
      ]
