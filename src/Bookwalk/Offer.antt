-- ===== src/Bookwalk/Offer.antt =====
-- The levels that backend/src/polycopy/execution/bookwalk.py walks: the valid ones, best price first.
use poly.Prelude.{
  ◌∙◌, none, sum_by, ◌&&◌, ◌==◌, if◌then◌else◌, pos, negsuc, ℕ, ◌+◌, ◌≤◌, ◌≡◌, refl, Bool, true,
  false, some, List, [], ◌∷◌, arith, length, All, Bool-cases, Option-cases, inl, inr,
}
use poly.Decimals.{Decimals}
use poly.Bookwalk.{
  Amount, BookLevel, Level, Side, insert_level, sorted, best_first, depth, ok_amounts, ok_levels,
  book_side,
}

abbrev pub IsValid : ℕ → Level → Type 0
IsValid one l = (1 ≤ l.price) × (l.price ≤ one) × (1 ≤ l.size)

module _ (before : Level → Level → Bool) where
  insert_level-All :
      (P : Level → Type 0) (x : Level) (ys : List Level)
      → P x
      → All P ys
      → All P (insert_level before x ys)
  unfolding insert_level
  insert_level-All P x [] p ps = (p, tt)
  insert_level-All P x (y ∷ ys) p (q, qs) = elim (Bool-cases (before x y)) [
    | inl first ↦ rw first (p, (q, qs))
    | inr later ↦ rw later (q, insert_level-All P x ys p qs)
  ]

  sorted-All : (P : Level → Type 0) (xs : List Level) → All P xs → All P (sorted before xs)
  unfolding sorted
  sorted-All P [] ps = tt
  sorted-All P (x ∷ xs) (p, ps) = insert_level-All P x (sorted before xs) p (sorted-All P xs ps)

  measures-insert_level :
      (x : Level) (ys : List Level)
      → (depth (insert_level before x ys) ≡ x.size + depth ys)
        × (length (insert_level before x ys) ≡ length ys + 1)
  unfolding insert_level
  measures-insert_level x [] = ground arith
  measures-insert_level x (y ∷ ys) = ground (arith, measures-insert_level x ys)

  measures-sorted :
      (xs : List Level)
      → (depth (sorted before xs) ≡ depth xs) × (length (sorted before xs) ≡ length xs)
  unfolding sorted
  measures-sorted [] = (refl, refl)
  measures-sorted (x ∷ xs) =
      ground (arith, measures-sorted xs, measures-insert_level x (sorted before xs))

-- Each level is in front of those that follow it.
abbrev InOrder : (Level → Level → Bool) → List Level → Type 0
InOrder before [] = Unit
InOrder before (x ∷ xs) = All (λ y. before x y ≡ true) xs × InOrder before xs

module _ (before : Level → Level → Bool)
    (total : (x y : Level) → before x y ≡ false → before y x ≡ true)
    (trans : (x y z : Level) → before x y ≡ true → before y z ≡ true → before x z ≡ true) where
  before-All :
      (x y : Level) (zs : List Level)
      → before x y ≡ true
      → All (λ z. before y z ≡ true) zs
      → All (λ z. before x z ≡ true) zs
  before-All x y [] h ps = tt
  before-All x y (z ∷ zs) h (p, ps) = (trans x y z h p, before-All x y zs h ps)

  insert_level-InOrder :
      (x : Level) (ys : List Level) → InOrder before ys → InOrder before (insert_level before x ys)
  unfolding insert_level
  insert_level-InOrder x [] o = (tt, tt)
  insert_level-InOrder x (y ∷ ys) (o, os) = elim (Bool-cases (before x y)) [
    | inl first ↦ rw first ((first, before-All x y ys first o), (o, os))
    | inr later ↦ rw later (
      insert_level-All before (λ z. before y z ≡ true) x ys (total x y later) o,
      insert_level-InOrder x ys os,
    )
  ]

  sorted-InOrder : (xs : List Level) → InOrder before (sorted before xs)
  unfolding sorted
  sorted-InOrder [] = tt
  sorted-InOrder (x ∷ xs) = insert_level-InOrder x (sorted before xs) (sorted-InOrder xs)

best_first-total :
    (side : Side) (x y : Level) → best_first side x y ≡ false → best_first side y x ≡ true
unfolding best_first
best_first-total Side.sell x y h = ground arith
best_first-total side x y h = ground arith

best_first_trans :
    (side : Side) (x y z : Level)
    → best_first side x y ≡ true
    → best_first side y z ≡ true
    → best_first side x z ≡ true
unfolding best_first
best_first_trans Side.sell x y z h k = ground arith
best_first_trans side x y z h k = ground arith

-- The book side that an order consumes: a BUY the asks, a SELL the bids.
abbrev pub consumed : Side → List BookLevel → List BookLevel → List BookLevel
consumed Side.buy bids asks = asks
consumed Side.sell bids asks = bids
consumed Side.other_side bids asks = bids

-- No later level is better: for a BUY none is cheaper, for a SELL none pays more.
abbrev pub BestFirst : Side → List Level → Type 0
BestFirst side [] = Unit
BestFirst Side.buy (l ∷ ls) = All (λ m. l.price ≤ m.price) ls × BestFirst Side.buy ls
BestFirst Side.sell (l ∷ ls) = All (λ m. m.price ≤ l.price) ls × BestFirst Side.sell ls
BestFirst Side.other_side (l ∷ ls) = BestFirst Side.other_side ls

All-map : (P Q : Level → Type 0) (ls : List Level) → ((l : Level) → P l → Q l) → All P ls → All Q ls
All-map P Q [] f h = tt
All-map P Q (l ∷ ls) f h = (f l h.0, All-map P Q ls f h.1)

InOrder-BestFirst :
    (side : Side) (ls : List Level) → InOrder (best_first side) ls → BestFirst side ls
unfolding best_first
InOrder-BestFirst Side.buy [] h = tt
InOrder-BestFirst Side.sell [] h = tt
InOrder-BestFirst Side.other_side [] h = tt
InOrder-BestFirst Side.buy (l ∷ ls) h = (
  All-map (λ m. best_first Side.buy l m ≡ true) (λ m. l.price ≤ m.price) ls (λ m e. ground arith)
      h.0,
  InOrder-BestFirst Side.buy ls h.1,
)
InOrder-BestFirst Side.sell (l ∷ ls) h = (
  All-map (λ m. best_first Side.sell l m ≡ true) (λ m. m.price ≤ l.price) ls (λ m e. ground arith)
      h.0,
  InOrder-BestFirst Side.sell ls h.1,
)
InOrder-BestFirst Side.other_side (l ∷ ls) h = InOrder-BestFirst Side.other_side ls h.1

-- How often a level stands in a list of valid levels, and in a list of raw ones.
abbrev one_if : Bool → ℕ
one_if b = if b then 1 else 0

abbrev pub occurrences : Level → List Level → ℕ
occurrences l = sum_by (λ m. one_if (m.price == l.price && m.size == l.size))

abbrev is_count : Amount → ℕ → Bool
is_count (Amount.finite (pos n)) k = n == k
is_count _ k = false

abbrev pub raw_occurrences : Level → List BookLevel → ℕ
raw_occurrences l = sum_by (λ m. one_if (is_count m.price l.price && is_count m.size l.size))

occurrences-insert_level :
    (before : Level → Level → Bool) (k x : Level) (ys : List Level)
    → occurrences k (insert_level before x ys) ≡ occurrences k (x ∷ ys)
unfolding insert_level
occurrences-insert_level before k x [] = refl
occurrences-insert_level before k x (y ∷ ys) =
    ground (arith, occurrences-insert_level before k x ys)

occurrences-sorted :
    (before : Level → Level → Bool) (k : Level) (xs : List Level)
    → occurrences k (sorted before xs) ≡ occurrences k xs
unfolding sorted
occurrences-sorted before k [] = refl
occurrences-sorted before k (x ∷ xs) =
    omega (
      arith,
      occurrences-insert_level before k x (sorted before xs),
      occurrences-sorted before k xs,
    )

module _ (d : Decimals) where
  ok_amounts-IsValid : (p s : Amount) {l : Level} → ok_amounts d p s ≡ some l → IsValid d.one l
  unfolding ok_amounts
  ok_amounts-IsValid p s h = ground arith

  ok_levels-IsValid : (ls : List BookLevel) → All (IsValid d.one) (ok_levels d ls)
  unfolding ok_levels
  ok_levels-IsValid [] = tt
  ok_levels-IsValid (l ∷ ls) = elim (Option-cases (ok_amounts d l.price l.size)) [
    | inl dropped ↦ rw (dropped, All) (ok_levels-IsValid ls)
    | inr (level, e) ↦ rw (e, All) (ok_amounts-IsValid l.price l.size e, ok_levels-IsValid ls)
  ]

  -- A raw level is let through as itself, and counts for a valid level whether or not it is.
  occurrences-ok_amounts :
      (k : Level) (p s : Amount)
      → IsValid d.one k
      → occurrences k (elim (ok_amounts d p s) [ none ↦ [] | some l ↦ l ∷ [] ])
        ≡ one_if (is_count p k.price && is_count s k.size)
  unfolding ok_amounts
  occurrences-ok_amounts k (Amount.finite (pos p)) (Amount.finite (pos s)) v = ground arith
  occurrences-ok_amounts k (Amount.finite (pos p)) (Amount.finite (negsuc s)) v = ground arith
  occurrences-ok_amounts k (Amount.finite (pos p)) Amount.not_finite v = ground arith
  occurrences-ok_amounts k (Amount.finite (negsuc p)) s v = ground arith
  occurrences-ok_amounts k Amount.not_finite s v = ground arith

  occurrences-ok_levels :
      (k : Level) (ls : List BookLevel)
      → IsValid d.one k
      → occurrences k (ok_levels d ls) ≡ raw_occurrences k ls
  unfolding ok_levels
  occurrences-ok_levels k [] v = refl
  occurrences-ok_levels k (l ∷ ls) v =
      let first = occurrences-ok_amounts k l.price l.size v in
      let rest = occurrences-ok_levels k ls v in
      elim (Option-cases (ok_amounts d l.price l.size)) [
        | inl dropped ↦ ground arith
        | inr (level, e) ↦ ground arith
      ]

  side-InOrder :
      (side : Side) (ls : List BookLevel) (k : Level)
      → IsValid d.one k
      → let offer = sorted (best_first side) (ok_levels d ls) in
        BestFirst side offer
        × All (IsValid d.one) offer
        × (occurrences k offer ≡ raw_occurrences k ls)
  side-InOrder side ls k v = (
    InOrder-BestFirst side (sorted (best_first side) (ok_levels d ls)) (
        sorted-InOrder (best_first side) (best_first-total side) (best_first_trans side)
          (ok_levels d ls)),
    sorted-All (best_first side) (IsValid d.one) (ok_levels d ls) (ok_levels-IsValid ls),
    occurrences-sorted (best_first side) k (ok_levels d ls) ∙ occurrences-ok_levels k ls v,
  )

  -- Whatever the book holds, the walk sees the valid levels of the side that the order consumes, each as
  -- often as the book has it, and no other: a level is valid if its numbers are finite, its price is
  -- above 0 and at most 1 dollar, and its size is positive. It sees them best price first: a BUY the
  -- asks, none before a cheaper one, and a SELL the bids, none before one that pays more.
  pub book_side-InOrder :
      (side : Side) (bids asks : List BookLevel) (k : Level)
      → IsValid d.one k
      → BestFirst side (book_side d side bids asks)
        × All (IsValid d.one) (book_side d side bids asks)
        × (occurrences k (book_side d side bids asks) ≡ raw_occurrences k (consumed side bids asks))
  unfolding book_side
  book_side-InOrder Side.buy bids asks k v = side-InOrder Side.buy asks k v
  book_side-InOrder Side.sell bids asks k v = side-InOrder Side.sell bids k v
  book_side-InOrder Side.other_side bids asks k v = side-InOrder Side.other_side bids k v
