-- ===== src/Accounting/Grouping.antt =====
-- The markets of a wallet in backend/src/polycopy/accounting/service.py are those of its trades.
use poly.Prelude.{
  ℕ, ◌≡◌, ◌≢◌, refl, sym, ap, ◌∙◌, subst, Bool, true, false, Option, none, some, List, [], ◌∷◌,
  ◌++◌, ◌==◌, ==_iff, if◌then◌else◌, if_case, Dict, lookup, lookup-insert, insert, or_else, All,
  arith, Bool-cases, inl, inr,
}
use mathlib.Core.List.{append_assoc, append-nil}
use poly.Pnl.{TradeLeg}
use poly.Accounting.{Row, Groups, add_row, add_rows}

-- The legs of a market, in order, and the settlement that its rows show.
abbrev pub legs_of : ℕ → List Row → List TradeLeg
legs_of key [] = []
legs_of key (r ∷ rows) =
    if r.leg.market_key == key then r.leg ∷ legs_of key rows else legs_of key rows

abbrev pub winner_of : ℕ → List Row → Option ℕ → Option ℕ
winner_of key [] default = default
winner_of key (r ∷ rows) default =
    winner_of key rows (if r.leg.market_key == key then r.winning_outcome else default)

module _ (key : ℕ) where
  add_row-legs_of :
      (g : Groups) (r : Row)
      → or_else (lookup key (add_row g r).legs) []
        ≡ or_else (lookup key g.legs) [] ++ (if r.leg.market_key == key then r.leg ∷ [] else [])
  unfolding add_row
  add_row-legs_of g r =
      let old = or_else (lookup r.leg.market_key g.legs) [] in
      ap (λ o. or_else o []) (lookup-insert r.leg.market_key key (old ++ (r.leg ∷ [])) g.legs)
      ∙ elim (Bool-cases (r.leg.market_key == key)) [
        | inl same ↦ rw (same, (==_iff r.leg.market_key key).0 same) refl
        | inr other ↦ rw other (sym (append-nil (or_else (lookup key g.legs) [])))
      ]

  cons_if :
      (b : Bool) (leg : TradeLeg) (legs : List TradeLeg)
      → (if b then leg ∷ [] else []) ++ legs ≡ (if b then leg ∷ legs else legs)
  cons_if true leg legs = refl
  cons_if false leg legs = refl

  pub add_rows-legs_of :
      (rows : List Row) (g : Groups)
      → or_else (lookup key (add_rows g rows).legs) []
        ≡ or_else (lookup key g.legs) [] ++ legs_of key rows
  unfolding add_rows
  add_rows-legs_of [] g = sym (append-nil (or_else (lookup key g.legs) []))
  add_rows-legs_of (r ∷ rows) g =
      add_rows-legs_of rows (add_row g r)
      ∙ ap (λ legs. legs ++ legs_of key rows) (add_row-legs_of g r)
      ∙ append_assoc (or_else (lookup key g.legs) [])
          (if r.leg.market_key == key then r.leg ∷ [] else []) (legs_of key rows)
      ∙ ap (λ legs. or_else (lookup key g.legs) [] ++ legs)
          (cons_if (r.leg.market_key == key) r.leg (legs_of key rows))

  or_else_if :
      (b : Bool) (v : Option ℕ) (o : Option (Option ℕ))
      → or_else (if b then some v else o) none ≡ (if b then v else or_else o none)
  or_else_if true v o = refl
  or_else_if false v o = refl

  pub add_rows-winner_of :
      (rows : List Row) (g : Groups)
      → or_else (lookup key (add_rows g rows).winners) none
        ≡ winner_of key rows (or_else (lookup key g.winners) none)
  unfolding add_rows add_row
  add_rows-winner_of [] g = refl
  add_rows-winner_of (r ∷ rows) g =
      add_rows-winner_of rows (add_row g r)
      ∙ ap (winner_of key rows) (
          ap (λ o. or_else o none) (lookup-insert r.leg.market_key key r.winning_outcome g.winners)
          ∙ or_else_if (r.leg.market_key == key) r.winning_outcome (lookup key g.winners))

module _ {V : Type 0} where
  -- Another key.
  abbrev pub IsNewKey : ℕ → Dict V → Type 0
  IsNewKey k = All (λ (e : ℕ × V). e.0 ≢ k)

  abbrev pub IsKeyed : Dict V → Type 0
  IsKeyed [] = Unit
  IsKeyed (e ∷ d) = IsNewKey e.0 d × IsKeyed d

  pub insert-All :
      (P : ℕ → Type 0) (k : ℕ) (v : V) (d : Dict V)
      → P k
      → All (λ (e : ℕ × V). P e.0) d
      → All (λ (e : ℕ × V). P e.0) (insert k v d)
  insert-All P k v [] p h = (p, tt)
  insert-All P k v (e ∷ d) p h =
      if_case (All (λ (f : ℕ × V). P f.0)) (e.0 == k) ((k, v) ∷ d) (e ∷ insert k v d)
        (λ _. (p, h.1)) (λ _. (h.0, insert-All P k v d p h.1))

  pub insert-IsKeyed : (k : ℕ) (v : V) (d : Dict V) → IsKeyed d → IsKeyed (insert k v d)
  insert-IsKeyed k v [] h = (tt, tt)
  insert-IsKeyed k v (e ∷ d) h =
      if_case IsKeyed (e.0 == k) ((k, v) ∷ d) (e ∷ insert k v d)
        (λ same. (subst (λ j. IsNewKey j d) ((==_iff e.0 k).0 same) h.0, h.1))
        (λ other. (insert-All (λ j. j ≢ e.0) k v d (ground arith) h.0, insert-IsKeyed k v d h.1))

  -- Each entry of a dict is what its key gives.
  lookup-behind :
      (e : ℕ × V) (d rest : Dict V)
      → IsNewKey e.0 rest
      → All (λ (f : ℕ × V). lookup f.0 d ≡ some f.1) rest
      → All (λ (f : ℕ × V). lookup f.0 (e ∷ d) ≡ some f.1) rest
  lookup-behind e d [] n h = tt
  lookup-behind e d (f ∷ rest) n h = (ground (arith, n.0, h.0), lookup-behind e d rest n.1 h.1)

  pub lookup-IsKeyed : (d : Dict V) → IsKeyed d → All (λ (e : ℕ × V). lookup e.0 d ≡ some e.1) d
  lookup-IsKeyed [] h = tt
  lookup-IsKeyed (e ∷ d) h = (ground arith, lookup-behind e d d h.0 (lookup-IsKeyed d h.1))
