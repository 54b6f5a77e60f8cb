-- ===== src/Accounting/Recent.antt =====
-- The accounting of a decision window, by its trades.
use mathlib.Core.List.{Mem}
use poly.Prelude.{
  ℕ, ◌+◌, ◌≡◌, refl, sym, ◌∙◌, min, Bool, true, false, not, ◌&&◌, ◌||◌, Option, none, some, List,
  [], ◌∷◌, ◌==◌, if_case, leb, or_else, map, filter, any, All, arith,
}
use mathlib.Core.Path.{ap₂}
use poly.Pnl.{TradeLeg, account_market}
use poly.Accounting.{Row, first_trade_at, is_recent, compute_wallet_accounting_for_decision_window}
use poly.Accounting.Grouping.{legs_of}
use poly.Accounting.Window.{
  market_of, of_wallet, chosen, filter-chosen, legs_of-chosen, winner_of-chosen,
  assemble_wallet_accounting-markets,
}

-- A trade of a market up to now, and a trade of it before the window.
abbrev pub has_past : ℕ → ℕ → List Row → Bool
has_past now k = any (λ (r : Row). r.leg.market_key == k && leb r.traded_at now)

abbrev pub has_early : ℕ → ℕ → ℕ → List Row → Bool
has_early now window k =
    any (λ (r : Row). r.leg.market_key == k && not (leb now (r.traded_at + window)))

abbrev past_first : ℕ → Option ℕ → Bool
past_first now none = false
past_first now (some t) = leb t now

past_first-min :
    (now t : ℕ) (o : Option ℕ)
    → past_first now (some (min t (or_else o t))) ≡ (leb t now || past_first now o)
past_first-min now t none = ground arith
past_first-min now t (some u) = ground arith

past_first-first_trade_at :
    (now wallet k : ℕ) (rows : List Row)
    → past_first now (first_trade_at wallet k rows) ≡ has_past now k (of_wallet wallet rows)
unfolding first_trade_at
past_first-first_trade_at now wallet k [] = refl
past_first-first_trade_at now wallet k (r ∷ rows) = ground (
  arith,
  past_first-first_trade_at now wallet k rows,
  past_first-min now r.traded_at (first_trade_at wallet k rows),
)

has_past-legs_of : (now k : ℕ) (rows : List Row) → legs_of k rows ≡ [] → has_past now k rows ≡ false
has_past-legs_of now k [] = λ h. refl
has_past-legs_of now k (r ∷ rows) =
    if_case (λ (legs : List TradeLeg). legs ≡ [] → has_past now k (r ∷ rows) ≡ false)
      (r.leg.market_key == k) (r.leg ∷ legs_of k rows) (legs_of k rows)
      (λ same e. absurd (grind arith))
      (λ other e. let rest = has_past-legs_of now k rows e in ground arith)

module _ (now window : ℕ) where
  abbrev early_first : Option ℕ → Bool
  early_first none = false
  early_first (some t) = not (leb now (t + window))

  early_first-min :
      (t : ℕ) (o : Option ℕ)
      → early_first (some (min t (or_else o t))) ≡ (not (leb now (t + window)) || early_first o)
  early_first-min t none = ground arith
  early_first-min t (some u) = ground arith

  early_first-first_trade_at :
      (wallet k : ℕ) (rows : List Row)
      → early_first (first_trade_at wallet k rows) ≡ has_early now window k (of_wallet wallet rows)
  unfolding first_trade_at
  early_first-first_trade_at wallet k [] = refl
  early_first-first_trade_at wallet k (r ∷ rows) = ground (
    arith,
    early_first-first_trade_at wallet k rows,
    early_first-min r.traded_at (first_trade_at wallet k rows),
  )

  is_recent-first :
      (o : Option ℕ) → is_recent now window o ≡ (not (early_first o) && past_first now o)
  unfolding is_recent
  is_recent-first none = refl
  is_recent-first (some t) = ground arith

  -- The test of the query, by the trades.
  is_recent-trades :
      (wallet k : ℕ) (rows : List Row)
      → is_recent now window (first_trade_at wallet k rows) ≡ (
          not (has_early now window k (of_wallet wallet rows))
          && has_past now k (of_wallet wallet rows))
  is_recent-trades wallet k rows =
      is_recent-first (first_trade_at wallet k rows)
      ∙ ap₂ (λ a b. not a && b) (early_first-first_trade_at wallet k rows)
          (past_first-first_trade_at now wallet k rows)

-- A market with no early trade and with a trade up to now.
abbrev pub IsRecent : ℕ → ℕ → List Row → ℕ → Type 0
IsRecent now window rows k = (has_early now window k rows ≡ false) × (has_past now k rows ≡ true)

map_same :
    {A : Type 0} (f h : ℕ → A) (Q : ℕ → Type 0) (ks : List ℕ)
    → ((k : ℕ) → Q k → f k ≡ h k)
    → All Q ks
    → map f ks ≡ map h ks
map_same f h Q [] same q = refl
map_same f h Q (k ∷ ks) same q = ap₂ ◌∷◌ (same k q.0) (map_same f h Q ks same q.1)

All-weaken : (P R : ℕ → Type 0) (ks : List ℕ) → ((k : ℕ) → P k → R k) → All P ks → All R ks
All-weaken P R [] f h = tt
All-weaken P R (k ∷ ks) f h = (f k h.0, All-weaken P R ks f h.1)

-- The accounting of a decision window takes exactly the markets of the wallet with no trade before the
-- window and a trade up to now, and each is accounted with all its legs of the wallet in their order,
-- also those that are later than now, and with the settlement of its last row.
pub decision_window_markets :
    (one wallet now window : ℕ) (rows : List Row)
    → (ks : List ℕ) × ((compute_wallet_accounting_for_decision_window one wallet now window
          rows).markets
        ≡ map (market_of one (of_wallet wallet rows)) ks)
      × All (IsRecent now window (of_wallet wallet rows)) ks
      × ((k : ℕ) → IsRecent now window (of_wallet wallet rows) k → Mem k ks)
unfolding compute_wallet_accounting_for_decision_window
decision_window_markets one wallet now window rows =
    let own = of_wallet wallet rows in
    let q = λ (k : ℕ). is_recent now window (first_trade_at wallet k rows) in
    let taken = filter (chosen wallet q) rows in
    let (ks, same, recent, complete) =
      assemble_wallet_accounting-markets one taken (λ k. q k ≡ true)
        (filter-chosen wallet q rows) in
    (
      ks,
      same
          ∙ map_same (market_of one taken) (market_of one own) (λ k. q k ≡ true) ks
              (λ k h.
                ap₂ (account_market one k) (legs_of-chosen wallet q k rows h)
                  (winner_of-chosen wallet q k rows none h))
              recent,
      All-weaken (λ k. q k ≡ true) (IsRecent now window own) ks
          (λ k h. let test = is_recent-trades now window wallet k rows in ground arith) recent,
      (λ k r.
          let test = is_recent-trades now window wallet k rows in
          let here : q k ≡ true = ground arith in
          complete k (λ e.
            let none_left =
              has_past-legs_of now k own (sym (legs_of-chosen wallet q k rows here) ∙ e) in
            ground arith)),
    )
