-- ===== src/Execution/Detection.antt =====
-- Which trades `detect_signals` of backend/src/polycopy/execution/service.py copies.
use poly.Prelude.{
  ℕ, zero, suc, ◌≡◌, ◌≢◌, Bool, true, false, not, ◌&&◌, List, [], ◌∷◌, ◌++◌, arith, leb, filter,
  take, All, sym, if_case,
}
use poly.Execution.Store.{Trade, Signal, Store, Settings}
use poly.Execution.Signals.{
  insert_by, order_by, already_signaled, is_copyable, new_rows, signal_of, add_signals,
  detect_signals,
}

module _ {A : Type 0} (P : A → Type 0) where
  insert_by-All : (key : A → ℕ) (x : A) (ys : List A) → P x → All P ys → All P (insert_by key x ys)
  unfolding insert_by
  insert_by-All key x [] p h = (p, tt)
  insert_by-All key x (y ∷ ys) p h =
      if_case (All P) (leb (key x) (key y)) (x ∷ y ∷ ys) (y ∷ insert_by key x ys) (λ _. (p, h))
        (λ _. (h.0, insert_by-All key x ys p h.1))

  order_by-All : (key : A → ℕ) (xs : List A) → All P xs → All P (order_by key xs)
  unfolding order_by
  order_by-All key [] h = tt
  order_by-All key (x ∷ xs) h = insert_by-All key x (order_by key xs) h.0 (order_by-All key xs h.1)

  filter-All : (p : A → Bool) (xs : List A) → All P xs → All P (filter p xs)
  filter-All p [] h = tt
  filter-All p (x ∷ xs) h =
      if_case (All P) (p x) (x ∷ filter p xs) (filter p xs) (λ _. (h.0, filter-All p xs h.1))
        (λ _. filter-All p xs h.1)

  take-All : (n : ℕ) (xs : List A) → All P xs → All P (take n xs)
  take-All zero xs h = tt
  take-All (suc n) [] h = tt
  take-All (suc n) (x ∷ xs) h = (h.0, take-All n xs h.1)

filter_passes : {A : Type 0} (p : A → Bool) (xs : List A) → All (λ x. p x ≡ true) (filter p xs)
filter_passes p [] = tt
filter_passes p (x ∷ xs) =
    if_case (All (λ x. p x ≡ true)) (p x) (x ∷ filter p xs) (filter p xs)
      (λ e. (e, filter_passes p xs)) (λ _. filter_passes p xs)

-- Another trade than the given one.
abbrev pub IsOther : Trade → Trade → Type 0
IsOther t u = u.polymarket_trade_id ≢ t.polymarket_trade_id

abbrev pub DistinctTrades : List Trade → Type 0
DistinctTrades [] = Unit
DistinctTrades (t ∷ ts) = All (IsOther t) ts × DistinctTrades ts

-- No two signals copy the same trade.
abbrev pub DistinctSources : List Signal → Type 0
DistinctSources [] = Unit
DistinctSources (s ∷ ss) =
    All (λ (u : Signal). u.source_trade_id ≢ s.source_trade_id) ss × DistinctSources ss

insert_by-DistinctTrades :
    (key : Trade → ℕ) (t : Trade) (ts : List Trade)
    → All (IsOther t) ts
    → DistinctTrades ts
    → DistinctTrades (insert_by key t ts)
unfolding insert_by
insert_by-DistinctTrades key t [] h k = (tt, tt)
insert_by-DistinctTrades key t (u ∷ us) h k =
    if_case DistinctTrades (leb (key t) (key u)) (t ∷ u ∷ us) (u ∷ insert_by key t us) (λ _. (h, k))
      (λ _. (
        insert_by-All (IsOther u) key t us (λ e. h.0 (sym e)) k.0,
        insert_by-DistinctTrades key t us h.1 k.1,
      ))

order_by-DistinctTrades :
    (key : Trade → ℕ) (ts : List Trade) → DistinctTrades ts → DistinctTrades (order_by key ts)
unfolding order_by
order_by-DistinctTrades key [] h = tt
order_by-DistinctTrades key (t ∷ ts) h =
    insert_by-DistinctTrades key t (order_by key ts) (order_by-All (IsOther t) key ts h.0)
      (order_by-DistinctTrades key ts h.1)

filter-DistinctTrades :
    (p : Trade → Bool) (ts : List Trade) → DistinctTrades ts → DistinctTrades (filter p ts)
filter-DistinctTrades p [] h = tt
filter-DistinctTrades p (t ∷ ts) h =
    if_case DistinctTrades (p t) (t ∷ filter p ts) (filter p ts)
      (λ _. (filter-All (IsOther t) p ts h.0, filter-DistinctTrades p ts h.1))
      (λ _. filter-DistinctTrades p ts h.1)

take-DistinctTrades : (n : ℕ) (ts : List Trade) → DistinctTrades ts → DistinctTrades (take n ts)
take-DistinctTrades zero ts h = tt
take-DistinctTrades (suc n) [] h = tt
take-DistinctTrades (suc n) (t ∷ ts) h =
    (take-All (IsOther t) n ts h.0, take-DistinctTrades n ts h.1)

-- A trade that no signal copies.
abbrev IsNew : List Signal → Trade → Type 0
IsNew signals t = All (λ (s : Signal). s.source_trade_id ≢ t.polymarket_trade_id) signals

already_signaled-IsNew :
    (t : Trade) (signals : List Signal) → already_signaled t signals ≡ false → IsNew signals t
unfolding already_signaled
already_signaled-IsNew t [] h = tt
already_signaled-IsNew t (s ∷ ss) h = (ground arith, already_signaled-IsNew t ss (ground arith))

pub All-snoc :
    {A : Type 0} (P : A → Type 0) (xs : List A) (y : A) → All P xs → P y → All P (xs ++ (y ∷ []))
All-snoc P [] y h p = (p, tt)
All-snoc P (x ∷ xs) y h p = (h.0, All-snoc P xs y h.1 p)

DistinctSources-snoc :
    (signals : List Signal) (id : ℕ) (t : Trade)
    → DistinctSources signals
    → IsNew signals t
    → DistinctSources (signals ++ (signal_of id t ∷ []))
DistinctSources-snoc [] id t h k = (tt, tt)
DistinctSources-snoc (s ∷ ss) id t h k = (
  All-snoc (λ (u : Signal). u.source_trade_id ≢ s.source_trade_id) ss (signal_of id t) h.0
      (λ e. k.0 (sym e)),
  DistinctSources-snoc ss id t h.1 k.1,
)

still-IsNew :
    (signals : List Signal) (id : ℕ) (t : Trade) (us : List Trade)
    → All (IsOther t) us
    → All (IsNew signals) us
    → All (IsNew (signals ++ (signal_of id t ∷ []))) us
still-IsNew signals id t [] h k = tt
still-IsNew signals id t (u ∷ us) h k = (
  All-snoc (λ (s : Signal). s.source_trade_id ≢ u.polymarket_trade_id) signals (signal_of id t) k.0
      (λ e. h.0 (sym e)),
  still-IsNew signals id t us h.1 k.1,
)

add_signals-DistinctSources :
    (fresh : List Signal → ℕ) (rows : List Trade) (signals : List Signal)
    → DistinctTrades rows
    → All (IsNew signals) rows
    → DistinctSources signals
    → DistinctSources (add_signals fresh rows signals)
unfolding add_signals
add_signals-DistinctSources fresh [] signals h k r = r
add_signals-DistinctSources fresh (t ∷ ts) signals h k r =
    add_signals-DistinctSources fresh ts (signals ++ (signal_of (fresh signals) t ∷ [])) h.1
      (still-IsNew signals (fresh signals) t ts h.0 k.1)
      (DistinctSources-snoc signals (fresh signals) t r k.0)

map_All :
    {A : Type 0} (P Q : A → Type 0) (xs : List A) → ((x : A) → P x → Q x) → All P xs → All Q xs
map_All P Q [] f h = tt
map_All P Q (x ∷ xs) f h = (f x h.0, map_All P Q xs f h.1)

is_copyable-IsNew : (db : Store) (t : Trade) → is_copyable db t ≡ true → IsNew db.signals t
unfolding is_copyable
is_copyable-IsNew db t h =
    already_signaled-IsNew t db.signals (not_right _ (already_signaled t db.signals) h)
  where
    not_right : (a b : Bool) → a && not b ≡ true → b ≡ false
    not_right a b e = ground arith

-- Detection gives no trade a second signal: if no two trades have the same id and no two signals the
-- same source trade, then no two signals have after it, in whatever order and at whatever batch size.
pub detect_signals-DistinctSources :
    (fresh : List Signal → ℕ) (st : Settings) (db : Store)
    → DistinctTrades db.trades
    → DistinctSources db.signals
    → DistinctSources (detect_signals fresh st db).0.signals
unfolding detect_signals new_rows
detect_signals-DistinctSources fresh st db trades sources =
    let key : Trade → ℕ = λ t. t.ingested_at in
    let rows = filter (is_copyable db) db.trades in
    add_signals-DistinctSources fresh (new_rows st db) db.signals
      (take-DistinctTrades st.signal_detection_batch_size (order_by key rows) (
        order_by-DistinctTrades key rows (filter-DistinctTrades (is_copyable db) db.trades trades)))
      (take-All (IsNew db.signals) st.signal_detection_batch_size (order_by key rows) (
        order_by-All (IsNew db.signals) key rows (
          map_All (λ t. is_copyable db t ≡ true) (IsNew db.signals) rows (is_copyable-IsNew db)
            (filter_passes (is_copyable db) db.trades))))
      sources
