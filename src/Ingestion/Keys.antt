-- ===== src/Ingestion/Keys.antt =====
-- How the rows of a page, of backend/src/polycopy/ingestion/service.py, are keyed and written.
use poly.Prelude.{
  ℕ, suc, ◌+◌, ◌≤◌, ◌≡◌, ◌≢◌, refl, Option, none, some, List, [], ◌∷◌, arith, ◌==◌, if_case, length,
  All, Dict, setdefault,
}
use poly.Ingestion.Identity.{RawTrade}
use poly.Ingestion.Rows.{Outside, Page, record_quarantine, page_key, key_row, key_rows}

-- A key that a dict does not have.
abbrev pub IsNewKey : ℕ → Dict RawTrade → Type 0
IsNewKey k = All (λ (e : ℕ × RawTrade). e.0 ≢ k)

abbrev pub DistinctKeys : Dict RawTrade → Type 0
DistinctKeys [] = Unit
DistinctKeys (e ∷ d) = IsNewKey e.0 d × DistinctKeys d

setdefault-IsNewKey :
    (j k : ℕ) (raw : RawTrade) (d : Dict RawTrade)
    → k ≢ j
    → IsNewKey j d
    → IsNewKey j (setdefault k raw d)
setdefault-IsNewKey j k raw [] n h = (n, tt)
setdefault-IsNewKey j k raw (e ∷ d) n h =
    if_case (IsNewKey j) (e.0 == k) (e ∷ d) (e ∷ setdefault k raw d) (λ _. h)
      (λ _. (h.0, setdefault-IsNewKey j k raw d n h.1))

setdefault-DistinctKeys :
    (k : ℕ) (raw : RawTrade) (d : Dict RawTrade)
    → DistinctKeys d
    → DistinctKeys (setdefault k raw d)
setdefault-DistinctKeys k raw [] h = (tt, tt)
setdefault-DistinctKeys k raw (e ∷ d) h =
    if_case DistinctKeys (e.0 == k) (e ∷ d) (e ∷ setdefault k raw d) (λ _. h)
      (λ n.
        (setdefault-IsNewKey e.0 k raw d (ground arith) h.0, setdefault-DistinctKeys k raw d h.1))

length-setdefault :
    (k : ℕ) (raw : RawTrade) (d : Dict RawTrade) → length (setdefault k raw d) ≤ suc (length d)
length-setdefault k raw [] = omega arith
length-setdefault k raw (e ∷ d) = ground (arith, length-setdefault k raw d)

module _ (x : Outside) (now wallet : ℕ) where
  key_row-DistinctKeys :
      (raw : RawTrade) (o : Option ℕ) (s : Dict RawTrade × Page)
      → DistinctKeys s.0
      → DistinctKeys (key_row x now wallet raw o s).0
  unfolding key_row
  key_row-DistinctKeys raw none s h = h
  key_row-DistinctKeys raw (some k) s h = setdefault-DistinctKeys k raw s.0 h

  pub key_rows-DistinctKeys :
      (raws : List RawTrade) (s : Dict RawTrade × Page)
      → DistinctKeys s.0
      → DistinctKeys (key_rows x now wallet raws s).0
  unfolding key_rows
  key_rows-DistinctKeys [] s h = h
  key_rows-DistinctKeys (raw ∷ rest) s h =
      key_rows-DistinctKeys rest (key_row x now wallet raw (page_key x raw) s)
        (key_row-DistinctKeys raw (page_key x raw) s h)

  -- Keying writes no trade, and each row is keyed or counted at most once.
  key_row-trades :
      (raw : RawTrade) (o : Option ℕ) (s : Dict RawTrade × Page)
      → (((key_row x now wallet raw o s).1.trades ≡ s.1.trades)
          × ((key_row x now wallet raw o s).1.inserted ≡ s.1.inserted))
        × (length (key_row x now wallet raw o s).0 + (key_row x now wallet raw o s).1.quarantined
            ≤ length s.0 + s.1.quarantined + 1)
  unfolding key_row record_quarantine
  key_row-trades raw none s = ((refl, refl), omega arith)
  key_row-trades raw (some k) s = ((refl, refl), omega (arith, length-setdefault k raw s.0))

  pub key_rows-trades :
      (raws : List RawTrade) (s : Dict RawTrade × Page)
      → (((key_rows x now wallet raws s).1.trades ≡ s.1.trades)
          × ((key_rows x now wallet raws s).1.inserted ≡ s.1.inserted))
        × (length (key_rows x now wallet raws s).0 + (key_rows x now wallet raws s).1.quarantined
            ≤ length s.0 + s.1.quarantined + length raws)
  unfolding key_rows
  key_rows-trades [] s = ((refl, refl), omega arith)
  key_rows-trades (raw ∷ rest) s =
      let s' = key_row x now wallet raw (page_key x raw) s in
      let ((t, i), n) = key_row-trades raw (page_key x raw) s in
      let ((t', i'), n') = key_rows-trades rest s' in ((cc, cc), omega arith)
