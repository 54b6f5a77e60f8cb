-- ===== src/Execution/Rounds.antt =====
-- The loop of a cycle of backend/src/polycopy/execution/service.py, and the keys of its orders.
use poly.Prelude.{
  ℕ, ◌≡◌, refl, true, not, ◌&&◌, Option, none, some, List, [], ◌∷◌, ltb, if◌then◌else◌, pos, ltb_ℤ,
  if_case, ◌==◌,
}
use poly.Decimals.{Decimals}
use poly.Fees.{FeeCurve}
use poly.Execution.Store.{Signal, Store, Settings, find}
use poly.Execution.Gates.{eligible_at, is_paper_mode}
use poly.Execution.Trade.{Client}
use poly.Execution.Handlers.{Outcome, execute_signal}
use poly.Execution.Signals.{detect_signals}
use poly.Execution.Settle.{settle_paper_positions}
use poly.Execution.Cycle.{
  CycleStats, Session, is_pending, close_round, pending_ids, run_signal, run_signals, sweep_store,
  cycle_session, start_session, end_cycle, run_execution_cycle,
}
use poly.Execution.Columns.{Columns, stored}
use poly.Execution.Books.{
  DistinctKeys, keys_of, Grown, Grown-stored, DistinctKeys-Grown, execute_signal-Grown,
}

-- The keys of both stores of a session have grown from those of the start.
record SessionKeys (start : List ℕ) (w : Session) : Type 0 where
  pub committed : Grown start w.committed.orders
  pub working : Grown start w.working.orders

close_round-Keys :
    (start : List ℕ) (cols : Columns) (w : Session) (out : Store × Outcome)
    → SessionKeys start w
    → Grown start out.0.orders
    → SessionKeys start (close_round cols w out)
unfolding close_round stored
close_round-Keys start cols w (db, Outcome.failed e) h k = record {
  committed = h.committed;
  working = h.committed;
}
close_round-Keys start cols w (db, Outcome.deferred) h k = record {
  committed = h.committed;
  working = k;
}
close_round-Keys start cols w (db, Outcome.ordered o) h k =
    let kept = Grown-stored cols start db.orders k in record { committed = kept; working = kept }

end_cycle-Keys :
    (start : List ℕ) (cols : Columns) (st : Settings) (w : Session)
    → SessionKeys start w
    → Grown start (end_cycle cols st w).orders
unfolding end_cycle sweep_store stored
end_cycle-Keys start cols st w h =
    let working = Grown-stored cols start w.working.orders h.working in
    let last : Store = if ltb 0 w.stats.deferred then stored cols w.working else w.committed in
    let out = sweep_store st w.working in
    if_case (λ (db : Store). Grown start db.orders) (ltb_ℤ (pos 0) out.1) (stored cols out.0) last
      (λ _. working)
      (λ _.
        if_case (λ (db : Store). Grown start db.orders) (ltb 0 w.stats.deferred)
          (stored cols w.working) w.committed (λ _. working) (λ _. h.committed))

-- A property of the session that a round leaves, if it does not end the loop.
abbrev Kept : (Session → Type 0) → Option Session → Type 0
Kept P none = Unit
Kept P (some w) = P w

found_case :
    (P : Option Session → Type 0) (o : Option Signal) (x : Option Session)
    (y : Signal → Option Session)
    → P x
    → ((s : Signal) → P (y s))
    → P (elim o [ none ↦ x | some s ↦ y s ])
found_case P none x y p q = p
found_case P (some s) x y p q = q s

next_case :
    (P : Session → Type 0) (o : Option Session) (w : Session) (f : Session → Session)
    → P w
    → Kept P o
    → ((w' : Session) → P w' → P (f w'))
    → P (elim o [ none ↦ w | some w' ↦ f w' ])
next_case P none w f p k q = p
next_case P (some w') w f p k q = q w' k

module _ (d : Decimals) (c : FeeCurve) (cols : Columns) where
  module _ (st : Settings) (client : ℕ → Client) (clock : ℕ → ℕ) (P : Session → Type 0)
      (step : (w : Session) (id : ℕ) (s : Signal)
        → P w
        → P (close_round cols w (execute_signal d c st (client id) (clock id) w.working s))) where
    run_signal-Kept :
        (id : ℕ) (w : Session) → P w → Kept P (run_signal d c cols st client clock id w)
    unfolding run_signal
    run_signal-Kept id w h =
        let attempt : Signal → Option Session = λ s.
          some (close_round cols w (execute_signal d c st (client id) (clock id) w.working s)) in
        let waited : Signal → Option Session = λ s.
          if ltb (clock id) (eligible_at st s) && not st.order_kill_switch
          then none
          else attempt s in
        found_case (Kept P) (find (λ (s : Signal). s.id == id) w.working.signals) (some w)
          (λ s. if not (is_pending s) then some w else waited s) h
          (λ s.
            if_case (Kept P) (not (is_pending s)) (some w) (waited s) (λ _. h)
              (λ _.
                if_case (Kept P) (ltb (clock id) (eligible_at st s) && not st.order_kill_switch)
                  none (attempt s) (λ _. tt) (λ _. step w id s h)))

    -- What every round keeps, the loop keeps.
    pub run_signals_lem :
        (ids : List ℕ) (w : Session) → P w → P (run_signals d c cols st client clock ids w)
    unfolding run_signals
    run_signals_lem [] w h = h
    run_signals_lem (id ∷ ids) w h =
        next_case P (run_signal d c cols st client clock id w) w
          (run_signals d c cols st client clock ids) h (run_signal-Kept id w h)
          (λ w' k. run_signals_lem ids w' k)

  cycle_session-Keys :
      (start : List ℕ) (st : Settings) (fresh : List Signal → ℕ) (client : ℕ → Client)
      (clock : ℕ → ℕ) (started : ℕ) (db : Store)
      → Grown start db.orders
      → SessionKeys start (cycle_session d c cols st fresh client clock started db)
  unfolding cycle_session start_session detect_signals settle_paper_positions stored
  cycle_session-Keys start st fresh client clock started db keys =
      let detected = detect_signals fresh st db in
      let settled = settle_paper_positions d st started detected.0 in
      run_signals_lem st client clock (SessionKeys start)
        (λ w id s h.
          close_round-Keys start cols w (execute_signal d c st (client id) (clock id) w.working s) h
            (execute_signal-Grown d c start st (client id) (clock id) w.working s h.working))
        (pending_ids st settled.0) (start_session cols settled.0 detected.1 settled.1)
        (record {
          committed = Grown-stored cols start db.orders keys;
          working = Grown-stored cols start db.orders keys;
        })

  -- In paper mode, with any answers of the venue and any clock, a cycle commits a store, and no two of
  -- its orders have the same idempotency key, if none of the orders before had: no source trade is
  -- copied twice. The keys of the orders before are still there, in their order, and those of the cycle
  -- behind them, whatever is deferred, fails or is rolled back in between.
  pub run_execution_cycle-Grown :
      (st : Settings) (fresh : List Signal → ℕ) (client : ℕ → Client) (clock : ℕ → ℕ) (started : ℕ)
      (db : Store)
      → is_paper_mode st ≡ true
      → DistinctKeys db.orders
      → (out : Store × CycleStats) × (run_execution_cycle d c cols st fresh client clock started db
          ≡ some out)
        × Grown (keys_of db.orders) out.0.orders
  unfolding run_execution_cycle
  run_execution_cycle-Grown st fresh client clock started db paper keys =
      let w = cycle_session d c cols st fresh client clock started db in
      (
        (end_cycle cols st w, w.stats),
        rw paper refl,
        end_cycle-Keys (keys_of db.orders) cols st w (
            cycle_session-Keys (keys_of db.orders) st fresh client clock started db
              (DistinctKeys-Grown db.orders keys)),
      )
