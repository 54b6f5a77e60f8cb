-- ===== src/Execution/Counts.antt =====
-- The counts that a cycle of backend/src/polycopy/execution/service.py reports.
use poly.Prelude.{
  map, ◌∙◌, ℕ, ◌+◌, ◌≡◌, refl, Bool, true, false, some, List, [], ◌∷◌, ◌++◌, arith, if_case,
  if◌then◌else◌, sum_by, subst, sym,
}
use poly.Bookwalk.{FillStatus}
use poly.Decimals.{Decimals}
use poly.Fees.{FeeCurve}
use poly.Execution.Store.{Signal, MissReason, PaperOrder, Store, Settings}
use poly.Execution.Trade.{Client, TradeError, record_skip, record_fill}
use poly.Execution.Columns.{Columns, stored, stored_order}
use poly.Execution.Handlers.{Outcome, has_order, commit_order, execute_signal}
use poly.Execution.Outcomes.{execute_signal_cases}
use poly.Execution.Signals.{detect_signals}
use poly.Execution.Settle.{settle_paper_positions}
use poly.Execution.Cycle.{
  CycleStats, Session, is_stale_miss, count_order, close_round, pending_ids, start_session,
  cycle_session,
}
use poly.Execution.Rounds.{run_signals_lem}

abbrev orders_with : (PaperOrder → Bool) → List PaperOrder → ℕ
orders_with p = sum_by (λ o. if p o then 1 else 0)

abbrev has_status : FillStatus → PaperOrder → Bool
has_status FillStatus.filled o = elim o.status [ FillStatus.filled ↦ true | _ ↦ false ]
has_status FillStatus.partial o = elim o.status [ FillStatus.partial ↦ true | _ ↦ false ]
has_status FillStatus.missed o = elim o.status [ FillStatus.missed ↦ true | _ ↦ false ]

abbrev is_stale : PaperOrder → Bool
is_stale o = elim o.miss_reason [ some MissReason.stale_signal ↦ true | _ ↦ false ]

-- The counts tell of the orders that a list has more than at the start: those with each status, and the
-- misses of stale signals.
pub record Counted (start orders : List PaperOrder) (s : CycleStats) : Type 0 where
  pub filled :
      orders_with (has_status FillStatus.filled) orders
      ≡ orders_with (has_status FillStatus.filled) start + s.filled
  pub partial :
      orders_with (has_status FillStatus.partial) orders
      ≡ orders_with (has_status FillStatus.partial) start + s.partial
  pub missed :
      orders_with (has_status FillStatus.missed) orders
      ≡ orders_with (has_status FillStatus.missed) start + s.missed
  pub stale : orders_with is_stale orders ≡ orders_with is_stale start + s.stale

-- The orders that an attempt adds: the one that it returns, and none if it defers.
abbrev Adds : Store → Store × Outcome → Type 0
Adds db (next, Outcome.failed e) = Unit
Adds db (next, Outcome.deferred) = next.orders ≡ db.orders
Adds db (next, Outcome.ordered o) = next.orders ≡ db.orders ++ (o ∷ [])

commit_order-Adds :
    (db next : Store) (s : Signal) (o : PaperOrder)
    → next.orders ≡ db.orders ++ (o ∷ [])
    → Adds db (commit_order db s (next, o))
unfolding commit_order
commit_order-Adds db next s o rows =
    if_case (Adds db) (has_order s.source_trade_id db.orders)
      (db, Outcome.failed TradeError.integrity_error) (next, Outcome.ordered o) (λ _. tt)
      (λ _. rows)

orders_with-snoc :
    (p : PaperOrder → Bool) (os : List PaperOrder) (o : PaperOrder)
    → orders_with p (os ++ (o ∷ [])) ≡ orders_with p os + (if p o then 1 else 0)
orders_with-snoc p [] o = omega arith
orders_with-snoc p (x ∷ os) o = omega (arith, orders_with-snoc p os o)

-- One order more, counted by its status and its reason.
count_order-Counted :
    (start os : List PaperOrder) (o : PaperOrder) (s : CycleStats)
    → Counted start os s
    → Counted start (os ++ (o ∷ [])) (count_order o s)
unfolding count_order is_stale_miss
count_order-Counted start os o s h =
    let filled = h.filled in
    let partial = h.partial in
    let missed = h.missed in
    let stale = h.stale in
    let filled' = orders_with-snoc (has_status FillStatus.filled) os o in
    let partial' = orders_with-snoc (has_status FillStatus.partial) os o in
    let missed' = orders_with-snoc (has_status FillStatus.missed) os o in
    let stale' = orders_with-snoc is_stale os o in
    record {
      filled = ground arith;
      partial = ground arith;
      missed = ground arith;
      stale = ground arith;
    }

map-Counted :
    (cols : Columns) (p : PaperOrder → Bool) (os : List PaperOrder)
    → ((o : PaperOrder) → p (stored_order cols o) ≡ p o)
    → orders_with p (map (stored_order cols) os) ≡ orders_with p os
map-Counted cols p [] h = refl
map-Counted cols p (o ∷ os) h = rw (h o, map-Counted cols p os h) refl

-- The columns keep the status and the reason of an order.
stored-Counted :
    (cols : Columns) (start os : List PaperOrder) (s : CycleStats)
    → Counted start os s
    → Counted start (map (stored_order cols) os) s
stored-Counted cols start os s h = record {
  filled = map-Counted cols (has_status FillStatus.filled) os (λ o. refl) ∙ h.filled;
  partial = map-Counted cols (has_status FillStatus.partial) os (λ o. refl) ∙ h.partial;
  missed = map-Counted cols (has_status FillStatus.missed) os (λ o. refl) ∙ h.missed;
  stale = map-Counted cols is_stale os (λ o. refl) ∙ h.stale;
}

-- The counts tell of the orders of both stores of a session.
pub record Tells (start : List PaperOrder) (w : Session) : Type 0 where
  pub committed : Counted start w.committed.orders w.stats
  pub working : Counted start w.working.orders w.stats

close_round-Tells :
    (cols : Columns) (start : List PaperOrder) (w : Session) (out : Store × Outcome)
    → Tells start w
    → Adds w.working out
    → Tells start (close_round cols w out)
unfolding close_round stored
close_round-Tells cols start w (db, Outcome.failed e) h k = record {
  committed = record {
    filled = h.committed.filled;
    partial = h.committed.partial;
    missed = h.committed.missed;
    stale = h.committed.stale;
  };
  working = record {
    filled = h.committed.filled;
    partial = h.committed.partial;
    missed = h.committed.missed;
    stale = h.committed.stale;
  };
}
close_round-Tells cols start w (db, Outcome.deferred) h k = record {
  committed = record {
    filled = h.committed.filled;
    partial = h.committed.partial;
    missed = h.committed.missed;
    stale = h.committed.stale;
  };
  working = record {
    filled = rw k h.working.filled;
    partial = rw k h.working.partial;
    missed = rw k h.working.missed;
    stale = rw k h.working.stale;
  };
}
close_round-Tells cols start w (db, Outcome.ordered o) h k =
    let grown = stored-Counted cols start db.orders (count_order o w.stats) (
      subst (λ os. Counted start os (count_order o w.stats)) (sym k)
        (count_order-Counted start w.working.orders o w.stats h.working)) in
    record { committed = grown; working = grown }

none_yet :
    (cols : Columns) (os : List PaperOrder) {s : CycleStats}
    → s.filled ≡ 0
    → s.partial ≡ 0
    → s.missed ≡ 0
    → s.stale ≡ 0
    → Counted os (map (stored_order cols) os) s
none_yet cols os {s = s} filled partial missed stale = stored-Counted cols os os s (record {
  filled = omega (arith, filled);
  partial = omega (arith, partial);
  missed = omega (arith, missed);
  stale = omega (arith, stale);
})

module _ (d : Decimals) (c : FeeCurve) where
  execute_signal-Adds :
      (st : Settings) (client : Client) (now : ℕ) (db : Store) (s : Signal)
      → Adds db (execute_signal d c st client now db s)
  unfolding record_skip record_fill
  execute_signal-Adds st client now db s =
      execute_signal_cases d c st client now db s (Adds db) (λ e. tt) refl refl
        (λ reason.
          commit_order-Adds db (record_skip db s reason now).0 s (record_skip db s reason now).1
            refl)
        (λ f m token may planned.
          commit_order-Adds db (record_fill d st db s f now).0 s (record_fill d st db s f now).1
            refl)

  -- The counts of a cycle are honest: it has added as many filled orders as it reports filled, as many
  -- partial and as many missed ones, and as many misses of stale signals as it reports stale, in the
  -- committed store as in the working one, whatever was deferred, failed and rolled back in between.
  pub cycle_session-Tells :
      (cols : Columns) (st : Settings) (fresh : List Signal → ℕ) (client : ℕ → Client)
      (clock : ℕ → ℕ) (started : ℕ) (db : Store)
      → Tells db.orders (cycle_session d c cols st fresh client clock started db)
  unfolding cycle_session start_session detect_signals settle_paper_positions stored
  cycle_session-Tells cols st fresh client clock started db =
      let detected = detect_signals fresh st db in
      let settled = settle_paper_positions d st started detected.0 in
      run_signals_lem d c cols st client clock (Tells db.orders)
        (λ w id s h.
          close_round-Tells cols db.orders w
            (execute_signal d c st (client id) (clock id) w.working s) h
            (execute_signal-Adds st (client id) (clock id) w.working s))
        (pending_ids st settled.0) (start_session cols settled.0 detected.1 settled.1)
        (record {
          committed = none_yet cols db.orders refl refl refl refl;
          working = none_yet cols db.orders refl refl refl refl;
        })
