-- ===== src/Bookwalk/Tests.antt =====
-- Walks of backend/src/polycopy/execution/bookwalk.py over concrete books.
use poly.Prelude.{◌≡◌, refl, some, none, List, [], ◌∷◌, pos, inl, arith, All}
use poly.Decimals.{micros, micros-IsRounded}
use poly.Bookwalk.{
  Amount, BookLevel, Level, Side, FillResult, WalkResult, start, walk_levels, fill_levels,
  book_side, walk_book,
}
use poly.Bookwalk.Price.{Budget, walk_levels-Budget}
use poly.Bookwalk.Offer.{
  IsValid, BestFirst, occurrences, raw_occurrences, consumed, book_side-InOrder,
}
use poly.Bookwalk.Fill.{FillOf, walk_book-FillOf}

abbrev test_asks : List BookLevel
test_asks =
    record { price = Amount.finite (pos 600_000); size = Amount.finite (pos 100) }
    ∷ record { price = Amount.not_finite; size = Amount.finite (pos 100) }
    ∷ record { price = Amount.finite (pos 500_000); size = Amount.finite (pos 40) }
    ∷ []

abbrev test_levels : List Level
test_levels = record { price = 500_000; size = 40 } ∷ record { price = 600_000; size = 100 } ∷ []

test_side : book_side micros Side.buy [] test_asks ≡ test_levels
unfolding book_side
test_side = refl

walk_book-FillOf_example :
    (r : FillResult) × (walk_book micros Side.buy 50_000_000 [] test_asks (some 90)
      ≡ WalkResult.walked r)
    × FillOf
        (book_side micros Side.buy [] test_asks)
        (some 90)
        (walk_levels micros
          (start micros 50_000_000 (some 90))
          (book_side micros Side.buy [] test_asks))
        r
walk_book-FillOf_example =
    walk_book-FillOf micros Side.buy 50_000_000 [] test_asks (some 90) (omega arith)
      (λ e. ground arith)

test_price : (fill_levels micros 50_000_000 test_levels none).fill_price ≡ some 555_555
unfolding fill_levels
test_price = refl

test_start : Budget 1_000_000 50_000_000 (start micros 50_000_000 none)
unfolding start
test_start = inl refl

walk_levels-Budget_example :
    Budget 1_000_000 50_000_000 (walk_levels micros (start micros 50_000_000 none) test_levels)
walk_levels-Budget_example =
    walk_levels-Budget micros micros-IsRounded 50_000_000 test_levels (start micros 50_000_000 none)
      ((omega arith, omega arith), ((omega arith, omega arith), tt)) test_start

book_side-InOrder_example :
    BestFirst Side.buy (book_side micros Side.buy [] test_asks)
    × All (IsValid 1_000_000) (book_side micros Side.buy [] test_asks)
    × (occurrences (record { price = 500_000; size = 40 }) (book_side micros Side.buy [] test_asks)
        ≡ raw_occurrences (record { price = 500_000; size = 40 }) (consumed Side.buy [] test_asks))
book_side-InOrder_example =
    book_side-InOrder micros Side.buy [] test_asks (record { price = 500_000; size = 40 })
      (omega arith, omega arith, omega arith)
