-- ===== src/Bookwalk.antt =====
-- backend/src/polycopy/execution/bookwalk.py: a market order walked down an order book. A raw level
-- holds any decimal, also a negative one or NaN; a level that passed the filter holds two positive
-- counts. A share cap below zero stops the walk where a cap of zero does, and is the number 0, as is
-- a non-positive `size_usd`.
pub mod Bounds
pub mod Price
pub mod Offer
pub mod Fill
mod Tests
use poly.Prelude.{
  ℕ, ◌+◌, ◌-◌, ◌*◌, min, Bool, true, false, ◌&&◌, Option, none, some, List, [], ◌∷◌, ltb, leb, ◌==◌,
  if◌then◌else◌, sum_by, ℤ, pos,
}
use poly.Decimals.{Decimals}

-- A Python Decimal: a finite number, or NaN or an infinity.
pub data Amount : Type 0 where
  finite : ℤ → Amount
  not_finite : Amount

pub record BookLevel : Type 0 where
  pub price : Amount
  pub size : Amount

-- A level that `_ok` lets through.
pub record Level : Type 0 where
  pub price : ℕ
  pub size : ℕ

pub data Side : Type 0 where
  buy sell : Side
  other_side : Side

pub data FillStatus : Type 0 where
  filled partial missed : FillStatus

pub record FillResult : Type 0 where
  pub status : FillStatus
  pub filled_size : ℕ
  pub fill_price : Option ℕ
  pub depth_available : ℕ
  pub levels_consumed : ℕ

pub data WalkError : Type 0 where
  size_not_positive bad_side : WalkError

pub data WalkResult : Type 0 where
  walked : FillResult → WalkResult
  raised : WalkError → WalkResult

-- The variables of the loop; `remaining_shares` is none when there is no cap.
pub record Walk : Type 0 where
  pub remaining_usd : ℕ
  pub remaining_shares : Option ℕ
  pub shares : ℕ
  pub notional : ℕ
  pub used : ℕ

-- What `min(lv.size, affordable)` and then the cap leave of a level.
abbrev capped : Option ℕ → ℕ → ℕ
capped none take = take
capped (some cap) take = min take cap

abbrev cap_left : Option ℕ → ℕ → Option ℕ
cap_left none take = none
cap_left (some cap) take = some (cap - take)

abbrev pub cap_reached : Option ℕ → Bool
cap_reached none = false
cap_reached (some cap) = cap == 0

-- `sorted`, which is stable, by `before x y`: x may stay in front of y.
pub insert_level : (Level → Level → Bool) → Level → List Level → List Level
insert_level before x [] = x ∷ []
insert_level before x (y ∷ ys) = if before x y then x ∷ y ∷ ys else y ∷ insert_level before x ys

pub sorted : (Level → Level → Bool) → List Level → List Level
unfolding insert_level
sorted before [] = []
sorted before (x ∷ xs) = insert_level before x (sorted before xs)

-- The order of the sort key, reversed for a SELL.
pub best_first : Side → Level → Level → Bool
best_first Side.sell x y = leb y.price x.price
best_first _ x y = leb x.price y.price

-- `sum((lv.size for lv in levels), Decimal(0))`
abbrev pub depth : List Level → ℕ
depth = sum_by (λ l. l.size)

module _ (d : Decimals) where
  -- `_ok`: both numbers are finite, the price lies in (0, 1] and the size is positive.
  unfoldable pub ok_amounts : Amount → Amount → Option Level
  ok_amounts (Amount.finite (pos p)) (Amount.finite (pos s)) =
      if ltb 0 p && leb p d.one && ltb 0 s then some (record { price = p; size = s }) else none
  ok_amounts _ _ = none

  pub ok_levels : List BookLevel → List Level
  unfolding ok_amounts
  ok_levels [] = []
  ok_levels (l ∷ ls) = elim (ok_amounts l.price l.size) [
    | none ↦ ok_levels ls
    | some level ↦ level ∷ ok_levels ls
  ]

  -- The shares taken at a level.
  pub take_at : Walk → Level → ℕ
  take_at w l = capped w.remaining_shares (min l.size (d.quotient w.remaining_usd l.price))

  pub walk_level : Walk → Level → Walk
  unfolding take_at
  walk_level w l =
      let take = take_at w l in
      record {
        remaining_usd =
            if take == d.quotient w.remaining_usd l.price
            then 0
            else w.remaining_usd - take * l.price;
        remaining_shares = cap_left w.remaining_shares take;
        shares = w.shares + take;
        notional = w.notional + take * l.price;
        used = w.used + 1;
      }

  -- The loop. After a level at which the money ran out the source breaks; here the money is 0 then,
  -- and the next round stops.
  pub walk_levels : Walk → List Level → Walk
  unfolding walk_level
  walk_levels w [] = w
  walk_levels w (l ∷ ls) =
      let rest = walk_levels (walk_level w l) ls in
      if w.remaining_usd == 0 then w else if cap_reached w.remaining_shares then w else rest

  pub start : ℕ → Option ℕ → Walk
  start size_usd max_shares = record {
    remaining_usd = size_usd;
    remaining_shares = max_shares;
    shares = 0;
    notional = 0;
    used = 0;
  }

  -- The part of `walk_book` below the guards, on the sorted levels.
  unfoldable pub fill_levels : ℕ → List Level → Option ℕ → FillResult
  unfolding walk_levels start
  fill_levels size_usd levels max_shares =
      let available = depth levels in
      let w = walk_levels (start size_usd max_shares) levels in
      if available == 0
      then record {
        status = FillStatus.missed;
        filled_size = 0;
        fill_price = none;
        depth_available = 0;
        levels_consumed = 0;
      }
      else if w.shares == 0
      then record {
        status = FillStatus.missed;
        filled_size = 0;
        fill_price = none;
        depth_available = available;
        levels_consumed = 0;
      }
      else record {
        status = if w.remaining_usd == 0 then FillStatus.filled else FillStatus.partial;
        filled_size = w.shares;
        fill_price = some (d.quotient w.notional w.shares);
        depth_available = available;
        levels_consumed = w.used;
      }

  pub book_side : Side → List BookLevel → List BookLevel → List Level
  unfolding sorted best_first ok_levels
  book_side Side.buy bids asks = sorted (best_first Side.buy) (ok_levels asks)
  book_side side bids asks = sorted (best_first side) (ok_levels bids)

  unfoldable pub walk_book : Side → ℕ → List BookLevel → List BookLevel → Option ℕ → WalkResult
  unfolding fill_levels book_side
  walk_book side size_usd bids asks max_shares =
      if size_usd == 0 then WalkResult.raised WalkError.size_not_positive else elim side [
        | other_side ↦ WalkResult.raised WalkError.bad_side
        | known ↦ WalkResult.walked (fill_levels size_usd (book_side known bids asks) max_shares)
      ]
