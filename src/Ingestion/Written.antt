-- ===== src/Ingestion/Written.antt =====
-- What `ingest_trade_rows` of backend/src/polycopy/ingestion/service.py writes.
use poly.Prelude.{
  ℕ, ◌+◌, ◌≤◌, ◌≡◌, ◌≢◌, refl, Bool, false, not, Option, none, some, List, [], ◌∷◌, ◌++◌, arith,
  if_case, filter, length, length-append, length-filter, All, Dict, sym, subst, ap, ◌∙◌, ◌⊎◌, inl,
  inr,
}
use poly.Execution.Store.{Market, Trade}
use poly.Execution.Detection.{IsOther, DistinctTrades, All-snoc}
use poly.Ingestion.Identity.{RawTrade}
use poly.Ingestion.Rows.{
  Outside, Page, record_quarantine, has_trade, key_rows, trade_row, write_row, write_rows,
  new_entries, ingest_trade_rows,
}
use poly.Ingestion.Keys.{IsNewKey, DistinctKeys, key_rows-DistinctKeys, key_rows-trades}

-- No trade has the key.
abbrev pub IsFree : ℕ → List Trade → Type 0
IsFree k = All (λ (t : Trade). t.polymarket_trade_id ≢ k)

-- No trade has the key of an entry.
abbrev AllFree : List Trade → Dict RawTrade → Type 0
AllFree trades = All (λ (e : ℕ × RawTrade). IsFree e.0 trades)

has_trade-IsFree : (k : ℕ) (ts : List Trade) → has_trade k ts ≡ false → IsFree k ts
unfolding has_trade
has_trade-IsFree k [] h = tt
has_trade-IsFree k (t ∷ ts) h = (ground arith, has_trade-IsFree k ts (ground arith))

DistinctTrades-snoc :
    (ts : List Trade) (t : Trade)
    → DistinctTrades ts
    → IsFree t.polymarket_trade_id ts
    → DistinctTrades (ts ++ (t ∷ []))
DistinctTrades-snoc [] t h k = (tt, tt)
DistinctTrades-snoc (u ∷ us) t h k =
    (All-snoc (IsOther u) us t h.0 (λ e. k.0 (sym e)), DistinctTrades-snoc us t h.1 k.1)

AllFree-snoc :
    (ts : List Trade) (t : Trade) (es : Dict RawTrade)
    → AllFree ts es
    → IsNewKey t.polymarket_trade_id es
    → AllFree (ts ++ (t ∷ [])) es
AllFree-snoc ts t [] h k = tt
AllFree-snoc ts t (e ∷ es) h k = (
  All-snoc (λ (u : Trade). u.polymarket_trade_id ≢ e.0) ts t h.0 (λ same. k.0 (sym same)),
  AllFree-snoc ts t es h.1 k.1,
)

filter-IsNewKey :
    (p : ℕ × RawTrade → Bool) (k : ℕ) (d : Dict RawTrade) → IsNewKey k d → IsNewKey k (filter p d)
filter-IsNewKey p k [] h = tt
filter-IsNewKey p k (e ∷ d) h =
    if_case (IsNewKey k) (p e) (e ∷ filter p d) (filter p d) (λ _. (h.0, filter-IsNewKey p k d h.1))
      (λ _. filter-IsNewKey p k d h.1)

filter-DistinctKeys :
    (p : ℕ × RawTrade → Bool) (d : Dict RawTrade) → DistinctKeys d → DistinctKeys (filter p d)
filter-DistinctKeys p [] h = tt
filter-DistinctKeys p (e ∷ d) h =
    if_case DistinctKeys (p e) (e ∷ filter p d) (filter p d)
      (λ _. (filter-IsNewKey p e.0 d h.0, filter-DistinctKeys p d h.1))
      (λ _. filter-DistinctKeys p d h.1)

new_entries-AllFree : (ts : List Trade) (d : Dict RawTrade) → AllFree ts (new_entries ts d)
unfolding new_entries
new_entries-AllFree ts [] = tt
new_entries-AllFree ts (e ∷ d) =
    if_case (AllFree ts) (not (has_trade e.0 ts)) (e ∷ new_entries ts d) (new_entries ts d)
      (λ free. (has_trade-IsFree e.0 ts (ground arith), new_entries-AllFree ts d))
      (λ _. new_entries-AllFree ts d)

module _ (x : Outside) (fetch : Bool) (now wallet : ℕ) where
  -- The row of a trade has the key of its entry.
  pub trade_row-key :
      (key : ℕ) (raw : RawTrade) (markets : List Market) {t : Trade} {all : List Market}
      → trade_row x fetch now wallet key raw markets ≡ some (t, all)
      → t.polymarket_trade_id ≡ key
  unfolding trade_row
  trade_row-key key raw markets h = grind arith

  -- One savepoint leaves the trades as they are and counts a failure, or adds one trade and counts it.
  pub write_row-cases :
      (raw : RawTrade) (o : Option (Trade × List Market)) (w : Page)
      → ((write_row x now wallet raw o w).trades ≡ w.trades)
          × ((write_row x now wallet raw o w).inserted ≡ w.inserted)
          × ((write_row x now wallet raw o w).quarantined ≡ w.quarantined + 1)
        ⊎ (t : Trade) × (all : List Market) × (o ≡ some (t, all))
          × ((write_row x now wallet raw o w).trades ≡ w.trades ++ (t ∷ []))
          × ((write_row x now wallet raw o w).inserted ≡ w.inserted + 1)
          × ((write_row x now wallet raw o w).quarantined ≡ w.quarantined)
  unfolding write_row record_quarantine
  write_row-cases raw none w = inl (refl, refl, refl)
  write_row-cases raw (some (t, all)) w = inr (t, all, refl, refl, refl, refl)

  write_rows-DistinctTrades :
      (es : Dict RawTrade) (w : Page)
      → DistinctKeys es
      → AllFree w.trades es
      → DistinctTrades w.trades
      → DistinctTrades (write_rows x fetch now wallet es w).trades
  unfolding write_rows
  write_rows-DistinctTrades [] w k f h = h
  write_rows-DistinctTrades (e ∷ es) w k f h =
      let o = trade_row x fetch now wallet e.0 e.1 w.markets in
      let w' = write_row x now wallet e.1 o w in
      elim (write_row-cases e.1 o w) [
        | inl (same, _, _) ↦
            write_rows-DistinctTrades es w' k.1 (subst (λ ts. AllFree ts es) (sym same) f.1)
              (subst DistinctTrades (sym same) h)
        | inr (t, all, made, more, _, _) ↦
            let name = trade_row-key e.0 e.1 w.markets made in
            write_rows-DistinctTrades es w' k.1
              (subst (λ ts. AllFree ts es) (sym more)
                (AllFree-snoc w.trades t es f.1 (subst (λ j. IsNewKey j es) (sym name) k.0)))
              (subst DistinctTrades (sym more)
                (DistinctTrades-snoc w.trades t h (subst (λ j. IsFree j w.trades) (sym name) f.0)))
      ]

  pub write_rows_counts :
      (es : Dict RawTrade) (w : Page)
      → (length (write_rows x fetch now wallet es w).trades + w.inserted
          ≡ length w.trades + (write_rows x fetch now wallet es w).inserted)
        × ((write_rows x fetch now wallet es w).inserted
              + (write_rows x fetch now wallet es w).quarantined
            ≡ w.inserted + w.quarantined + length es)
  unfolding write_rows
  write_rows_counts [] w = (omega arith, omega arith)
  write_rows_counts (e ∷ es) w =
      let o = trade_row x fetch now wallet e.0 e.1 w.markets in
      let w' = write_row x now wallet e.1 o w in
      let (n, q) = write_rows_counts es w' in
      elim (write_row-cases e.1 o w) [
        | inl (same, i, f) ↦ let l = ap (λ ts. length ts) same in (omega arith, omega arith)
        | inr (t, all, made, more, i, f) ↦
            let l = ap (λ ts. length ts) more ∙ length-append w.trades (t ∷ []) in
            (omega arith, omega arith)
      ]

  -- No two stored trades have the same canonical key, whatever rows a page brings, if none had before:
  -- this is what the detection of signals asks of the trades.
  pub ingest_trade_rows-DistinctTrades :
      (raws : List RawTrade) (w : Page)
      → DistinctTrades w.trades
      → DistinctTrades (ingest_trade_rows x fetch now wallet raws w).trades
  unfolding ingest_trade_rows new_entries
  ingest_trade_rows-DistinctTrades raws w h =
      let start : Page = record w { inserted = 0; quarantined = 0 } in
      let s = key_rows x now wallet raws ([], start) in
      let ((same, _), _) = key_rows-trades x now wallet raws ([], start) in
      write_rows-DistinctTrades (new_entries s.1.trades s.0) s.1
        (filter-DistinctKeys (λ (e : ℕ × RawTrade). not (has_trade e.0 s.1.trades)) s.0
          (key_rows-DistinctKeys x now wallet raws ([], start) tt))
        (new_entries-AllFree s.1.trades s.0) (subst DistinctTrades (sym same) h)

  -- A page adds as many trades as it reports inserted, and the inserted and the quarantined rows
  -- together are no more than the rows that came.
  pub ingest_trade_rows_counts :
      (raws : List RawTrade) (w : Page)
      → (length (ingest_trade_rows x fetch now wallet raws w).trades
          ≡ length w.trades + (ingest_trade_rows x fetch now wallet raws w).inserted)
        × ((ingest_trade_rows x fetch now wallet raws w).inserted
              + (ingest_trade_rows x fetch now wallet raws w).quarantined
            ≤ length raws)
  unfolding ingest_trade_rows new_entries
  ingest_trade_rows_counts raws w =
      let start : Page = record w { inserted = 0; quarantined = 0 } in
      let s = key_rows x now wallet raws ([], start) in
      let ((same, i), n) = key_rows-trades x now wallet raws ([], start) in
      let l = ap (λ ts. length ts) same in
      let (t, q) = write_rows_counts (new_entries s.1.trades s.0) s.1 in
      let few = length-filter (λ (e : ℕ × RawTrade). not (has_trade e.0 s.1.trades)) s.0 in
      (omega arith, omega arith)
