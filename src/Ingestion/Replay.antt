-- ===== src/Ingestion/Replay.antt =====
-- A page of trades that `ingest_trade_rows` of backend/src/polycopy/ingestion/service.py reads twice,
-- as after an interruption.
use poly.Prelude.{
  ℕ, ◌≤◌, ◌≡◌, refl, Bool, true, not, Option, none, some, List, [], ◌∷◌, ◌++◌, arith, if◌then◌else◌,
  All, Dict, subst, ap, ◌∙◌, inl, inr, Bool-cases,
}
use poly.Execution.Store.{Trade}
use poly.Ingestion.Identity.{RawTrade}
use poly.Ingestion.Rows.{
  Outside, Page, record_quarantine, has_trade, page_key, key_row, key_rows, trade_row, write_row,
  write_rows, new_entries, ingest_trade_rows,
}
use poly.Ingestion.Written.{trade_row-key, write_row-cases}

-- The trades have the keys of the entries.
abbrev HasAll : List Trade → Dict RawTrade → Type 0
HasAll trades = All (λ (e : ℕ × RawTrade). has_trade e.0 trades ≡ true)

has_trade-append :
    (k : ℕ) (ts us : List Trade) → has_trade k ts ≡ true → has_trade k (ts ++ us) ≡ true
unfolding has_trade
has_trade-append k [] us h = absurd (ground arith)
has_trade-append k (t ∷ ts) us h = ground (arith, has_trade-append k ts us)

has_trade-snoc :
    (k : ℕ) (ts : List Trade) (t : Trade)
    → t.polymarket_trade_id ≡ k
    → has_trade k (ts ++ (t ∷ [])) ≡ true
unfolding has_trade
has_trade-snoc k [] t h = ground arith
has_trade-snoc k (u ∷ us) t h = ground (arith, has_trade-snoc k us t h)

-- With every key in the trades nothing is new.
new_entries-HasAll : (ts : List Trade) (d : Dict RawTrade) → HasAll ts d → new_entries ts d ≡ []
unfolding new_entries
new_entries-HasAll ts [] h = refl
new_entries-HasAll ts (e ∷ d) h = rw h.0 (new_entries-HasAll ts d h.1)

-- The keys that were in the trades, and the new ones that are in them now, are all keys.
HasAll-new_entries :
    (before after : List Trade) (d : Dict RawTrade)
    → ((k : ℕ) → has_trade k before ≡ true → has_trade k after ≡ true)
    → HasAll after (new_entries before d)
    → HasAll after d
unfolding new_entries
HasAll-new_entries before after [] keep h = tt
HasAll-new_entries before after (e ∷ d) keep h = elim (Bool-cases (has_trade e.0 before)) [
  | inl old ↦ (
    keep e.0 old,
    HasAll-new_entries before after d keep (
        subst (λ b. HasAll after (if not b then e ∷ new_entries before d else new_entries before d))
          old h),
  )
  | inr new ↦
      let h' =
        subst (λ b. HasAll after (if not b then e ∷ new_entries before d else new_entries before d))
          new h in
      (h'.0, HasAll-new_entries before after d keep h'.1)
]

module _ (x : Outside) (fetch : Bool) (now wallet : ℕ) where
  -- A row that is quarantined counts once more; the count never falls.
  key_row_quarantined :
      (raw : RawTrade) (o : Option ℕ) (s : Dict RawTrade × Page)
      → s.1.quarantined ≤ (key_row x now wallet raw o s).1.quarantined
  unfolding key_row record_quarantine
  key_row_quarantined raw none s = omega arith
  key_row_quarantined raw (some k) s = omega arith

  key_rows_quarantined :
      (raws : List RawTrade) (s : Dict RawTrade × Page)
      → s.1.quarantined ≤ (key_rows x now wallet raws s).1.quarantined
  unfolding key_rows
  key_rows_quarantined [] s = omega arith
  key_rows_quarantined (raw ∷ rest) s = omega (
    arith,
    key_row_quarantined raw (page_key x raw) s,
    key_rows_quarantined rest (key_row x now wallet raw (page_key x raw) s),
  )

  write_rows_quarantined :
      (es : Dict RawTrade) (w : Page)
      → w.quarantined ≤ (write_rows x fetch now wallet es w).quarantined
  unfolding write_rows
  write_rows_quarantined [] w = omega arith
  write_rows_quarantined (e ∷ es) w =
      let o = trade_row x fetch now wallet e.0 e.1 w.markets in
      let more = write_rows_quarantined es (write_row x now wallet e.1 o w) in
      elim (write_row-cases x fetch now wallet e.1 o w) [
        | inl (_, _, q) ↦ omega arith
        | inr (_, _, _, _, _, q) ↦ omega arith
      ]

  -- Where a page was keyed with no failure, keying it again gives the same dict and changes nothing.
  key_row_again :
      (now' : ℕ) (raw : RawTrade) (o : Option ℕ) (s : Dict RawTrade × Page) (w : Page)
      → (key_row x now wallet raw o s).1.quarantined ≤ s.1.quarantined
      → key_row x now' wallet raw o (s.0, w) ≡ ((key_row x now wallet raw o s).0, w)
  unfolding key_row record_quarantine
  key_row_again now' raw none s w h = absurd (omega arith)
  key_row_again now' raw (some k) s w h = refl

  key_rows_again :
      (now' : ℕ) (raws : List RawTrade) (s : Dict RawTrade × Page) (w : Page)
      → (key_rows x now wallet raws s).1.quarantined ≤ s.1.quarantined
      → key_rows x now' wallet raws (s.0, w) ≡ ((key_rows x now wallet raws s).0, w)
  unfolding key_rows
  key_rows_again now' [] s w h = refl
  key_rows_again now' (raw ∷ rest) s w h =
      let s' = key_row x now wallet raw (page_key x raw) s in
      let low = key_row_quarantined raw (page_key x raw) s in
      let high = key_rows_quarantined rest s' in
      ap (key_rows x now' wallet rest) (key_row_again now' raw (page_key x raw) s w (omega arith))
      ∙ key_rows_again now' rest s' w (omega arith)

  write_rows_keep :
      (es : Dict RawTrade) (w : Page) (k : ℕ)
      → has_trade k w.trades ≡ true
      → has_trade k (write_rows x fetch now wallet es w).trades ≡ true
  unfolding write_rows
  write_rows_keep [] w k h = h
  write_rows_keep (e ∷ es) w k h =
      let o = trade_row x fetch now wallet e.0 e.1 w.markets in
      let w' = write_row x now wallet e.1 o w in
      write_rows_keep es w' k (elim (write_row-cases x fetch now wallet e.1 o w) [
        | inl (same, _, _) ↦ ap (has_trade k) same ∙ h
        | inr (t, _, _, more, _, _) ↦ ap (has_trade k) more ∙ has_trade-append k w.trades (t ∷ []) h
      ])

  -- Where no row failed, the trades have all the keys.
  write_rows-HasAll :
      (es : Dict RawTrade) (w : Page)
      → (write_rows x fetch now wallet es w).quarantined ≤ w.quarantined
      → HasAll (write_rows x fetch now wallet es w).trades es
  unfolding write_rows
  write_rows-HasAll [] w h = tt
  write_rows-HasAll (e ∷ es) w h =
      let o = trade_row x fetch now wallet e.0 e.1 w.markets in
      let w' = write_row x now wallet e.1 o w in
      let high = write_rows_quarantined es w' in
      elim (write_row-cases x fetch now wallet e.1 o w) [
        | inl (_, _, q) ↦ absurd (omega arith)
        | inr (t, all, made, more, _, q) ↦ (
          write_rows_keep es w' e.0 (
              ap (has_trade e.0) more
              ∙ has_trade-snoc e.0 w.trades t
                  (trade_row-key x fetch now wallet e.0 e.1 w.markets made)),
          write_rows-HasAll es w' (omega arith),
        )
      ]

  -- A page that was read with no row quarantined can be read again at any time: the second time
  -- inserts nothing, quarantines nothing and leaves the markets, the trades, the throttle and the log
  -- as the first left them.
  pub ingest_trade_rows_again :
      (fetch' : Bool) (now' : ℕ) (raws : List RawTrade) (w : Page)
      → (ingest_trade_rows x fetch now wallet raws w).quarantined ≡ 0
      → ingest_trade_rows x fetch' now' wallet raws (ingest_trade_rows x fetch now wallet raws w)
        ≡ record (ingest_trade_rows x fetch now wallet raws w) { inserted = 0; quarantined = 0 }
  unfolding ingest_trade_rows
  ingest_trade_rows_again fetch' now' raws w h =
      let start : Page = record w { inserted = 0; quarantined = 0 } in
      let s = key_rows x now wallet raws ([], start) in
      let new = new_entries s.1.trades s.0 in
      let w' = write_rows x fetch now wallet new s.1 in
      let again : Page = record w' { inserted = 0; quarantined = 0 } in
      let few = write_rows_quarantined new s.1 in
      let known =
        HasAll-new_entries s.1.trades w'.trades s.0 (write_rows_keep new s.1)
          (write_rows-HasAll new s.1 (omega arith)) in
      ap
        (λ (p : Dict RawTrade × Page).
          write_rows x fetch' now' wallet (new_entries p.1.trades p.0) p.1)
        (key_rows_again now' raws ([], start) again (omega arith))
      ∙ ap (λ es. write_rows x fetch' now' wallet es again) (new_entries-HasAll w'.trades s.0 known)
