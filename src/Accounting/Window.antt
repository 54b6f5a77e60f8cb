-- ===== src/Accounting/Window.antt =====
-- Which markets and which legs the accounting of a decision window takes.
use mathlib.Core.List.{Mem, mem-cons_self, mem-cons_of_mem}
use poly.Prelude.{
  ℕ, ◌≡◌, ◌≢◌, refl, sym, ap, ◌∙◌, subst, Bool, true, ◌&&◌, Option, none, some, List, [], ◌∷◌, ◌==◌,
  ==_iff, if◌then◌else◌, if_case, Dict, lookup, or_else, map, filter, All, arith, Bool-cases, inl,
  inr,
}
use mathlib.Core.Path.{ap₂}
use poly.Pnl.{TradeLeg, MarketAccounting, account_market}
use poly.Accounting.{Row, Groups, add_row, add_rows, assemble_wallet_accounting}
use poly.Accounting.Grouping.{
  legs_of, winner_of, add_rows-legs_of, add_rows-winner_of, IsKeyed, insert-All, insert-IsKeyed,
  lookup-IsKeyed,
}

keys : {V : Type 0} → Dict V → List ℕ
keys [] = []
keys (e ∷ d) = e.0 ∷ keys d

abbrev no_groups : Groups
no_groups = record { legs = []; winners = [] }

-- The accounting of a market from the legs of the rows.
abbrev pub market_of : ℕ → List Row → ℕ → MarketAccounting
market_of one rows key = account_market one key (legs_of key rows) (winner_of key rows none)

module _ (Q : ℕ → Type 0) where
  add_rows-All :
      (rows : List Row) (g : Groups)
      → All (λ (r : Row). Q r.leg.market_key) rows
      → All (λ (e : ℕ × List TradeLeg). Q e.0) g.legs × IsKeyed g.legs
      → All (λ (e : ℕ × List TradeLeg). Q e.0) (add_rows g rows).legs
        × IsKeyed (add_rows g rows).legs
  unfolding add_rows add_row
  add_rows-All [] g q h = h
  add_rows-All (r ∷ rows) g q h =
      add_rows-All rows (add_row g r) q.1 (
        insert-All Q r.leg.market_key _ g.legs q.0 h.0,
        insert-IsKeyed r.leg.market_key _ g.legs h.1,
      )

  keys-All : (d : Dict (List TradeLeg)) → All (λ (e : ℕ × List TradeLeg). Q e.0) d → All Q (keys d)
  unfolding keys
  keys-All [] h = tt
  keys-All (e ∷ d) h = (h.0, keys-All d h.1)

lookup-keys : (k : ℕ) (d : Dict (List TradeLeg)) → or_else (lookup k d) [] ≢ [] → Mem k (keys d)
unfolding keys
lookup-keys k [] h = absurd (h refl)
lookup-keys k (e ∷ d) h = elim (Bool-cases (e.0 == k)) [
  | inl same ↦ subst (λ j. Mem j (e.0 ∷ keys d)) ((==_iff e.0 k).0 same) mem-cons_self
  | inr other ↦ mem-cons_of_mem e.0 (
      lookup-keys k d
        (λ e'. h (ap (λ b. or_else (if b then some e.1 else lookup k d) []) other ∙ e')))
]

map-keys :
    (f : ℕ × List TradeLeg → MarketAccounting) (h : ℕ → MarketAccounting) (d : Dict (List TradeLeg))
    → All (λ (e : ℕ × List TradeLeg). f e ≡ h e.0) d
    → map f d ≡ map h (keys d)
unfolding keys
map-keys f h [] same = refl
map-keys f h (e ∷ d) same = ap₂ ◌∷◌ same.0 (map-keys f h d same.1)

All-map :
    (P R : ℕ × List TradeLeg → Type 0) (d : Dict (List TradeLeg))
    → ((e : ℕ × List TradeLeg) → P e → R e)
    → All P d
    → All R d
All-map P R [] f h = tt
All-map P R (e ∷ d) f h = (f e h.0, All-map P R d f h.1)

-- The markets of an accounting are those of its rows, each once and with all its legs in order.
pub assemble_wallet_accounting-markets :
    (one : ℕ) (rows : List Row) (Q : ℕ → Type 0)
    → All (λ (r : Row). Q r.leg.market_key) rows
    → (ks : List ℕ) × ((assemble_wallet_accounting one rows).markets ≡ map (market_of one rows) ks)
      × All Q ks
      × ((k : ℕ) → legs_of k rows ≢ [] → Mem k ks)
unfolding assemble_wallet_accounting
assemble_wallet_accounting-markets one rows Q q =
    let g = add_rows no_groups rows in
    let (all, keyed) = add_rows-All Q rows no_groups q (tt, tt) in
    (
      keys g.legs,
      map-keys _ (market_of one rows) g.legs (
          All-map (λ e. lookup e.0 g.legs ≡ some e.1) _ g.legs
            (λ e known.
              ap₂ (account_market one e.0)
                (sym (ap (λ o. or_else o []) known) ∙ add_rows-legs_of e.0 rows no_groups)
                (add_rows-winner_of e.0 rows no_groups))
            (lookup-IsKeyed g.legs keyed)),
      keys-All Q g.legs all,
      (λ k some_leg.
          lookup-keys k g.legs (λ e. some_leg (sym (add_rows-legs_of k rows no_groups) ∙ e))),
    )

-- The rows of a wallet.
abbrev pub of_wallet : ℕ → List Row → List Row
of_wallet wallet = filter (λ (r : Row). r.wallet_id == wallet)

module _ (wallet : ℕ) (q : ℕ → Bool) where
  abbrev pub chosen : Row → Bool
  chosen r = r.wallet_id == wallet && q r.leg.market_key

  pub filter-chosen :
      (rows : List Row) → All (λ (r : Row). q r.leg.market_key ≡ true) (filter chosen rows)
  filter-chosen [] = tt
  filter-chosen (r ∷ rows) =
      if_case (All (λ (s : Row). q s.leg.market_key ≡ true)) (chosen r) (r ∷ filter chosen rows)
        (filter chosen rows) (λ h. (ground arith, filter-chosen rows)) (λ _. filter-chosen rows)

  pub legs_of-chosen :
      (k : ℕ) (rows : List Row)
      → q k ≡ true
      → legs_of k (filter chosen rows) ≡ legs_of k (of_wallet wallet rows)
  legs_of-chosen k [] h = refl
  legs_of-chosen k (r ∷ rows) h = elim (Bool-cases (r.leg.market_key == k)) [
    | inl same ↦
        let here : q r.leg.market_key ≡ true = ap q ((==_iff r.leg.market_key k).0 same) ∙ h in
        ground (arith, legs_of-chosen k rows h)
    | inr other ↦ ground (arith, legs_of-chosen k rows h)
  ]

  pub winner_of-chosen :
      (k : ℕ) (rows : List Row) (o : Option ℕ)
      → q k ≡ true
      → winner_of k (filter chosen rows) o ≡ winner_of k (of_wallet wallet rows) o
  winner_of-chosen k [] o h = refl
  winner_of-chosen k (r ∷ rows) o h =
      let o' = if r.leg.market_key == k then r.winning_outcome else o in
      elim (Bool-cases (r.leg.market_key == k)) [
        | inl same ↦
            let here : q r.leg.market_key ≡ true = ap q ((==_iff r.leg.market_key k).0 same) ∙ h in
            ground (arith, winner_of-chosen k rows o h, winner_of-chosen k rows o' h)
        | inr other ↦ ground (arith, winner_of-chosen k rows o h, winner_of-chosen k rows o' h)
      ]
