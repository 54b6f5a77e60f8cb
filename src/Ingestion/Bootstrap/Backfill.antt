-- ===== src/Ingestion/Bootstrap/Backfill.antt =====
-- `bootstrap_wallet_history` around its loop: the early returns, the start and the end of a run.
use poly.Prelude.{
  ℕ, suc, ◌+◌, ◌/◌, Bool, true, false, ◌&&◌, ◌||◌, not, Option, none, some, List, [], ◌∷◌, ltb, leb,
  ◌==◌, if◌then◌else◌, or_else,
}
use poly.Settlements.{second_micros}
use poly.Ingestion.Bootstrap.{
  BootstrapSettings, max_trades, max_pages, max_requests, History, Evidence, Reason, Context, Event,
  persisted, Run, earliest, latest, is_mature,
}
use poly.Ingestion.Bootstrap.Turn.{run_loop}

-- The state of a wallet that has no entry; the reason is none of those that are tested.
abbrev pub blank : Context
blank = record {
  pages_requested = 0;
  rows_fetched = 0;
  new_trades_inserted = 0;
  duplicates_skipped = 0;
  quarantined_rows = 0;
  oldest_trade_observed = none;
  newest_trade_observed = none;
  settled_market_count = 0;
  total_local_trade_count = 0;
  satisfied = false;
  termination_reason = Reason.in_progress;
  next_offset = 0;
  end_timestamp = 0;
  window_oldest = none;
  requests_used = 0;
  settlement_checked = [];
}

-- What the function returns, with the world and the trace that it leaves.
pub record Result (W : Type 0) : Type 0 where
  pub context : Context
  pub trace : List Event
  pub world : W

-- The early return of a limit that was reached before.
unfoldable pub is_used_up : BootstrapSettings → Context → Bool
is_used_up c state = elim state.termination_reason [
  | Reason.configured_limit_reached ↦
      leb (max_pages c) state.pages_requested
      || leb (max_trades c) state.rows_fetched
      || leb (max_requests c) state.requests_used
  | _ ↦ false
]

unfoldable pub is_exhausted : Context → Bool
is_exhausted state = elim state.termination_reason [ Reason.history_exhausted ↦ true | _ ↦ false ]

-- The entry of a wallet that is mature before any request.
unfoldable pub mature_context : ℕ → Evidence → Context
mature_context now e = record blank {
  oldest_trade_observed = e.oldest;
  newest_trade_observed = e.newest;
  settled_market_count = e.settled_count;
  total_local_trade_count = e.local_count;
  satisfied = true;
  termination_reason = Reason.maturity_satisfied;
  end_timestamp = now / second_micros;
}

-- The variables before the loop.
unfoldable pub resume : {W : Type 0} → ℕ → Context → W → Run W
resume now state world = record {
  world = world;
  trace = [];
  end_ts = if state.end_timestamp == 0 then now / second_micros else state.end_timestamp;
  offset = state.next_offset;
  window_oldest = state.window_oldest;
  pages = state.pages_requested;
  pages_this_run = 0;
  rows_fetched = state.rows_fetched;
  requests = state.requests_used;
  settlement_checked = state.settlement_checked;
  inserted_total = 0;
  duplicates_total = 0;
  quarantined_total = 0;
  oldest = none;
  newest = none;
  mature = false;
}

-- The reason that is recorded: a run that only used up its own pages is in progress.
unfoldable pub final_reason : {W : Type 0} → BootstrapSettings → Reason → Run W → Reason
final_reason c Reason.configured_limit_reached r =
    if not r.mature
      && leb c.bootstrap_pages_per_run r.pages_this_run
      && ltb r.pages (max_pages c)
      && ltb r.rows_fetched (max_trades c)
      && ltb r.requests (max_requests c)
    then Reason.in_progress
    else Reason.configured_limit_reached
final_reason c reason r = reason

-- The code behind the loop.
unfoldable pub finish :
    {W : Type 0} → History W → BootstrapSettings → Context → Reason × Run W → Result W
unfolding final_reason earliest latest
finish x c state (reason, r) =
    let e = x.evidence r.world in
    let context : Context = record {
      pages_requested = r.pages;
      rows_fetched = r.rows_fetched;
      new_trades_inserted = state.new_trades_inserted + r.inserted_total;
      duplicates_skipped = state.duplicates_skipped + r.duplicates_total;
      quarantined_rows = state.quarantined_rows + r.quarantined_total;
      oldest_trade_observed = earliest r.oldest e.oldest;
      newest_trade_observed = latest r.newest e.newest;
      settled_market_count = e.settled_count;
      total_local_trade_count = e.local_count;
      satisfied = r.mature;
      termination_reason = final_reason c reason r;
      next_offset = r.offset;
      end_timestamp = r.end_ts;
      window_oldest = r.window_oldest;
      requests_used = r.requests;
      settlement_checked = r.settlement_checked;
    } in
    record { context = context; trace = persisted context ∷ r.trace; world = r.world }

-- The loop has one turn more than the pages of a run as its fuel; none is out of fuel.
unfoldable pub backfill :
    {W : Type 0} → History W → BootstrapSettings → ℕ → Context → W → Option (Result W)
unfolding run_loop resume finish
backfill x c now state world =
    elim (run_loop x c now state (suc c.bootstrap_pages_per_run) (resume now state world)) [
      | none ↦ none
      | some end ↦ some (finish x c state end)
    ]

unfoldable pub bootstrap_wallet_history :
    {W : Type 0} → History W → BootstrapSettings → ℕ → Option Context → W → Option (Result W)
unfolding is_mature mature_context is_exhausted is_used_up backfill
bootstrap_wallet_history x c now prior world =
    let state = or_else prior blank in
    let kept : Result _ = record { context = state; trace = []; world = world } in
    let e = x.evidence world in
    let made = mature_context now e in
    if state.satisfied
    then some kept
    else if is_mature now e.local_count e.settled_count e.oldest
    then some (record { context = made; trace = persisted made ∷ []; world = world })
    else if is_exhausted state || is_used_up c state
    then some kept
    else backfill x c now state world
