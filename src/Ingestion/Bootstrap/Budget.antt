-- ===== src/Ingestion/Bootstrap/Budget.antt =====
-- What `bootstrap_wallet_history` of backend/src/polycopy/ingestion/service.py spends, in one run and in
-- all runs of a wallet.
use poly.Prelude.{
  ℕ, suc, ◌+◌, ◌≤◌, ◌≡◌, refl, sym, ap, ◌∙◌, ◌⊎◌, inl, inr, max, true, false, ◌||◌, Option, none,
  some, List, [], ◌∷◌, if_case, or_else, arith,
}
use poly.Ingestion.Bootstrap.{
  BootstrapSettings, max_trades, max_pages, max_requests, History, IsLawful, Reason, Context,
  persisted, Run, is_mature,
}
use poly.Ingestion.Bootstrap.Turn.{Turn}
use poly.Ingestion.Bootstrap.Backfill.{
  blank, Result, is_used_up, is_exhausted, mature_context, resume, finish, backfill,
  bootstrap_wallet_history,
}
use poly.Ingestion.Bootstrap.Bounds.{spent, IsPaid, IsKept}
use poly.Ingestion.Bootstrap.Turns.{turn-IsKept}
use poly.Ingestion.Bootstrap.Loop.{run_loop_ends}

-- A result within the budgets, by the state that its run started from.
pub record IsBounded {W : Type 0} (c : BootstrapSettings) (state : Context) (result : Result W)
    : Type 0 where
  pub pages : result.context.pages_requested ≤ max state.pages_requested (max_pages c)
  pub rows : result.context.rows_fetched ≤ max state.rows_fetched (max_trades c)
  pub requests : result.context.requests_used ≤ max state.requests_used (max_requests c)
  pub counted : result.context.requests_used ≡ state.requests_used + spent result.trace
  pub paid : IsPaid state.requests_used result.trace
  pub accounted :
      result.context.rows_fetched + state.new_trades_inserted + state.duplicates_skipped
        + state.quarantined_rows
      ≡ state.rows_fetched + result.context.new_trades_inserted + result.context.duplicates_skipped
        + result.context.quarantined_rows

abbrev pub spent_then : {W : Type 0} → (Context → ℕ) → Option (Result W) → ℕ
spent_then again none = 0
spent_then again (some result) = spent result.trace + again result.context

module _ {W : Type 0} (x : History W) (c : BootstrapSettings) where
  finish-IsBounded :
      (state : Context) (reason : Reason) (r : Run W)
      → IsKept c state.pages_requested state.rows_fetched state.requests_used r
      → IsBounded c state (finish x c state (reason, r))
  unfolding finish
  finish-IsBounded state reason r k = record {
    pages = k.few_pages;
    rows = k.few_rows;
    requests = k.few_requests;
    counted = sym k.all_spent;
    paid = (omega (arith, k.all_spent), tt, k.paid);
    accounted = omega (arith, k.accounted);
  }

  resume-IsKept :
      (now : ℕ) (state : Context) (world : W)
      → IsKept c state.pages_requested state.rows_fetched state.requests_used
          (resume now state world)
  unfolding resume
  resume-IsKept now state world = record {
    few_pages = omega arith;
    few_rows = omega arith;
    few_requests = omega arith;
    few_turns = omega arith;
    paid = tt;
    all_spent = omega arith;
    all_reserved = refl;
    accounted = omega arith;
  }

  backfill-IsBounded :
      (now : ℕ) (state : Context) (world : W)
      → IsLawful x
      → (result : Result W) × (backfill x c now state world ≡ some result)
        × IsBounded c state result
  unfolding backfill resume
  backfill-IsBounded now state world lawful =
      let kept = IsKept c state.pages_requested state.rows_fetched state.requests_used in
      let (reason, end, ends, k) =
        run_loop_ends x c now state kept (suc c.bootstrap_pages_per_run) (resume now state world)
          (turn-IsKept x c state.pages_requested state.rows_fetched state.requests_used lawful now
            state)
          (resume-IsKept now state world) (omega arith) (omega arith) in
      (
        finish x c state (reason, end),
        rw (ends, backfill) refl,
        finish-IsBounded state reason end k,
      )

  -- A run keeps the state, or records that the wallet is mature, both with no call, or fills the
  -- history.
  bootstrap_wallet_history_case :
      (P : Option (Result W) → Type 0) (now : ℕ) (prior : Option Context) (world : W)
      → P (some (record { context = or_else prior blank; trace = []; world = world }))
      → ((made : Context)
          → made.satisfied ≡ true
          → P (some (record { context = made; trace = persisted made ∷ []; world = world })))
      → ((or_else prior blank).satisfied ≡ false → P (backfill x c now (or_else prior blank) world))
      → P (bootstrap_wallet_history x c now prior world)
  unfolding bootstrap_wallet_history mature_context
  bootstrap_wallet_history_case P now prior world kept mature filled =
      let state = or_else prior blank in
      let e = x.evidence world in
      if_case P state.satisfied _ _ (λ _. kept)
        (λ open_state.
          if_case P (is_mature now e.local_count e.settled_count e.oldest) _ _
            (λ _. mature (mature_context now e) refl)
            (λ _.
              if_case P (is_exhausted state || is_used_up c state) _ _ (λ _. kept)
                (λ _. filled open_state)))

  -- What a run may do: nothing, or an entry of a mature wallet with no call, or a history within the
  -- budgets.
  abbrev pub IsOutcome : Context → Result W → Type 0
  IsOutcome state result =
      (result.context ≡ state) × (spent result.trace ≡ 0)
      ⊎ (result.context.satisfied ≡ true) × (spent result.trace ≡ 0)
      ⊎ (state.satisfied ≡ false) × IsBounded c state result

  -- A run of `bootstrap_wallet_history` keeps the state with no call, or records a mature wallet with no
  -- call, or stays within the budgets: the pages, the rows and the requests are at most what was used
  -- before or the limit, the requests that it records are those that it made, the log counts each
  -- request before it is made, each page has 1 to 500 rows within the offset 10000, and each row that
  -- came is counted as new, duplicate or quarantined, if pages and queries have no more rows than their
  -- limit and ingestion counts no more rows than came.
  pub bootstrap_wallet_history-IsBounded :
      (now : ℕ) (prior : Option Context) (world : W)
      → IsLawful x
      → (result : Result W) × (bootstrap_wallet_history x c now prior world ≡ some result)
        × IsOutcome (or_else prior blank) result
  bootstrap_wallet_history-IsBounded now prior world lawful =
      let state = or_else prior blank in
      bootstrap_wallet_history_case
        (λ o. (result : Result W) × (o ≡ some result) × IsOutcome state result) now prior world
        (_, refl, inl (refl, refl)) (λ made mature. (_, refl, inr (inl (mature, refl))))
        (λ open_state.
          let (result, same, bounded) = backfill-IsBounded now state world lawful in
          (result, same, inr (inr (open_state, bounded))))

  -- The requests of successive runs for one wallet, each at its time and on the world that it finds.
  abbrev pub spent_by_runs : List (ℕ × W) → Option Context → ℕ
  spent_by_runs [] prior = 0
  spent_by_runs (e ∷ rest) prior =
      spent_then (λ s. spent_by_runs rest (some s)) (bootstrap_wallet_history x c e.0 prior e.1)

  bootstrap_wallet_history_mature :
      (now : ℕ) (state : Context) (world : W)
      → state.satisfied ≡ true
      → bootstrap_wallet_history x c now (some state) world
        ≡ some (record { context = state; trace = []; world = world })
  unfolding bootstrap_wallet_history
  bootstrap_wallet_history_mature now state world mature =
      let kept : Result W = record { context = state; trace = []; world = world } in
      if_case (λ o. o ≡ some kept) state.satisfied (some kept) _ (λ _. refl)
        (λ open_state. absurd (ground arith))

  spent_by_runs_mature :
      (runs : List (ℕ × W)) (state : Context)
      → state.satisfied ≡ true
      → spent_by_runs runs (some state) ≡ 0
  spent_by_runs_mature [] state mature = refl
  spent_by_runs_mature (e ∷ rest) state mature =
      ap (spent_then (λ s. spent_by_runs rest (some s)))
        (bootstrap_wallet_history_mature e.0 state e.1 mature)
      ∙ omega (arith, spent_by_runs_mature rest state mature)

  spent_by_runs_few :
      (runs : List (ℕ × W)) (state : Context)
      → IsLawful x
      → state.requests_used ≤ max_requests c
      → state.requests_used + spent_by_runs runs (some state) ≤ max_requests c
  spent_by_runs_few [] state lawful few = omega arith
  spent_by_runs_few (e ∷ rest) state lawful few =
      let (result, same, outcome) =
        bootstrap_wallet_history-IsBounded e.0 (some state) e.1 lawful in
      let again = λ (s : Context). spent_by_runs rest (some s) in
      let total = ap (spent_then again) same in
      elim outcome [
        | inl (kept, free) ↦
            let more = spent_by_runs_few rest state lawful few in
            let equal = ap again kept in omega arith
        | inr (inl (mature, free)) ↦
            let nothing = spent_by_runs_mature rest result.context mature in omega arith
        | inr (inr (_, bounded)) ↦
            let low = bounded.requests in
            let counted = bounded.counted in
            let more = spent_by_runs_few rest result.context lawful (omega arith) in omega arith
      ]

  -- All the runs for one wallet together make no more requests than the limit, whatever happens to the
  -- database between them, if each starts from the entry of the one before and the operations keep to
  -- their limits.
  pub spent_by_runs-max_requests :
      (runs : List (ℕ × W)) → IsLawful x → spent_by_runs runs none ≤ max_requests c
  unfolding bootstrap_wallet_history
  spent_by_runs-max_requests [] lawful = omega arith
  spent_by_runs-max_requests (e ∷ rest) lawful =
      let few = spent_by_runs_few (e ∷ rest) blank lawful (omega arith) in omega arith
