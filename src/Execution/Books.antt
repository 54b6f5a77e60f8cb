-- ===== src/Execution/Books.antt =====
-- The idempotency keys of the orders that `execute_signal` of backend/src/polycopy/execution/service.py
-- leaves.
use poly.Prelude.{ap, sym, map, ◌∙◌, ℕ, ◌≡◌, refl, false, List, [], ◌∷◌, ◌++◌, arith, ◌==◌, if_case}
use poly.Decimals.{Decimals}
use poly.Fees.{FeeCurve}
use poly.Execution.Store.{Signal, PaperOrder, Store, Settings}
use poly.Execution.Trade.{Client, TradeError, record_skip, record_fill}
use poly.Execution.Columns.{Columns, stored_order}
use poly.Execution.Handlers.{Outcome, has_order, commit_order, execute_signal}
use poly.Execution.Outcomes.{execute_signal_cases}

-- No two orders have the same idempotency key.
abbrev pub DistinctKeys : List PaperOrder → Type 0
DistinctKeys [] = Unit
DistinctKeys (o ∷ os) = (has_order o.idempotency_key os ≡ false) × DistinctKeys os

has_order-snoc :
    (key : ℕ) (os : List PaperOrder) (o : PaperOrder)
    → has_order key os ≡ false
    → (o.idempotency_key == key) ≡ false
    → has_order key (os ++ (o ∷ [])) ≡ false
unfolding has_order
has_order-snoc key [] o h k = ground arith
has_order-snoc key (x ∷ os) o h k = ground (arith, has_order-snoc key os o)

DistinctKeys-snoc :
    (os : List PaperOrder) (o : PaperOrder)
    → DistinctKeys os
    → has_order o.idempotency_key os ≡ false
    → DistinctKeys (os ++ (o ∷ []))
unfolding has_order
DistinctKeys-snoc [] o h k = (refl, tt)
DistinctKeys-snoc (x ∷ os) o h k = (
  has_order-snoc x.idempotency_key os o h.0 (ground arith),
  DistinctKeys-snoc os o h.1 (ground arith),
)

has_order-stored :
    (c : Columns) (key : ℕ) (os : List PaperOrder)
    → has_order key (map (stored_order c) os) ≡ has_order key os
unfolding has_order
has_order-stored c key [] = refl
has_order-stored c key (o ∷ os) = rw (has_order-stored c key os) refl

-- The columns keep the keys.
DistinctKeys-stored :
    (c : Columns) (os : List PaperOrder) → DistinctKeys os → DistinctKeys (map (stored_order c) os)
DistinctKeys-stored c [] h = tt
DistinctKeys-stored c (o ∷ os) h =
    (has_order-stored c o.idempotency_key os ∙ h.0, DistinctKeys-stored c os h.1)

abbrev pub keys_of : List PaperOrder → List ℕ
keys_of os = map (λ o. o.idempotency_key) os

-- The keys are distinct, and are those of the start with new ones behind them.
abbrev pub Grown : List ℕ → List PaperOrder → Type 0
Grown start os = DistinctKeys os × (new : List ℕ) × (keys_of os ≡ start ++ new)

keys_of-snoc :
    (os : List PaperOrder) (o : PaperOrder) (start new : List ℕ)
    → keys_of os ≡ start ++ new
    → keys_of (os ++ (o ∷ [])) ≡ start ++ (new ++ (o.idempotency_key ∷ []))
keys_of-snoc os o start new h =
    keys_of-append os o
    ∙ ap (λ ks. ks ++ (o.idempotency_key ∷ [])) h
    ∙ append_assoc start new (o.idempotency_key ∷ [])
  where
    keys_of-append :
        (os : List PaperOrder) (o : PaperOrder)
        → keys_of (os ++ (o ∷ [])) ≡ keys_of os ++ (o.idempotency_key ∷ [])
    keys_of-append [] o = refl
    keys_of-append (x ∷ os) o = ap (λ ks. x.idempotency_key ∷ ks) (keys_of-append os o)

    append_assoc : (xs ys zs : List ℕ) → (xs ++ ys) ++ zs ≡ xs ++ (ys ++ zs)
    append_assoc [] ys zs = refl
    append_assoc (x ∷ xs) ys zs = ap (λ ks. x ∷ ks) (append_assoc xs ys zs)

keys_of-stored :
    (c : Columns) (os : List PaperOrder) → keys_of (map (stored_order c) os) ≡ keys_of os
keys_of-stored c [] = refl
keys_of-stored c (o ∷ os) = ap (λ ks. o.idempotency_key ∷ ks) (keys_of-stored c os)

pub Grown-stored :
    (c : Columns) (start : List ℕ) (os : List PaperOrder)
    → Grown start os
    → Grown start (map (stored_order c) os)
Grown-stored c start os (distinct, new, behind) =
    (DistinctKeys-stored c os distinct, new, keys_of-stored c os ∙ behind)

append-nil : (ks : List ℕ) → ks ++ [] ≡ ks
append-nil [] = refl
append-nil (k ∷ ks) = ap (λ rest. k ∷ rest) (append-nil ks)

pub DistinctKeys-Grown : (os : List PaperOrder) → DistinctKeys os → Grown (keys_of os) os
DistinctKeys-Grown os h = (h, [], sym (append-nil (keys_of os)))

-- A commit that goes through adds its key, which is a new one.
commit_order-Grown :
    (start : List ℕ) (db next : Store) (s : Signal) (o : PaperOrder)
    → Grown start db.orders
    → next.orders ≡ db.orders ++ (o ∷ [])
    → o.idempotency_key ≡ s.source_trade_id
    → Grown start (commit_order db s (next, o)).0.orders
unfolding commit_order
commit_order-Grown start db next s o (keys, new, behind) rows key =
    if_case (λ (p : Store × Outcome). Grown start p.0.orders)
      (has_order s.source_trade_id db.orders) (db, Outcome.failed TradeError.integrity_error)
      (next, Outcome.ordered o) (λ _. (keys, new, behind))
      (λ free. rw rows (
        DistinctKeys-snoc db.orders o keys (rw key free),
        new ++ (o.idempotency_key ∷ []),
        keys_of-snoc db.orders o start new behind,
      ))

module _ (d : Decimals) (c : FeeCurve) where
  -- Whatever an attempt comes to, no key is lost and a key that it adds is a new one.
  pub execute_signal-Grown :
      (start : List ℕ) (st : Settings) (client : Client) (now : ℕ) (db : Store) (s : Signal)
      → Grown start db.orders
      → Grown start (execute_signal d c st client now db s).0.orders
  unfolding record_fill record_skip
  execute_signal-Grown start st client now db s keys =
      execute_signal_cases d c st client now db s (λ (p : Store × Outcome). Grown start p.0.orders)
        (λ e. keys) keys keys
        (λ reason.
          commit_order-Grown start db (record_skip db s reason now).0 s
            (record_skip db s reason now).1 keys refl refl)
        (λ f m token may planned.
          commit_order-Grown start db (record_fill d st db s f now).0 s
            (record_fill d st db s f now).1 keys refl refl)
