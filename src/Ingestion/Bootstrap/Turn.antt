-- ===== src/Ingestion/Bootstrap/Turn.antt =====
-- The body of the loop of `bootstrap_wallet_history`, and the loop.
use poly.Prelude.{
  ℕ, zero, suc, ◌+◌, ◌-◌, ◌*◌, ◌/◌, min, true, false, ◌||◌, not, Option, none, some, List, [], ◌∷◌,
  ◌++◌, ltb, leb, ◌==◌, if◌then◌else◌, length,
}
use poly.Scoring.{min_settled_markets}
use poly.Settlements.{second_micros}
use poly.Ingestion.Identity.{RawTrade}
use poly.Ingestion.Bootstrap.{
  BootstrapSettings, max_trades, page_size, max_pages, max_requests, max_offset, History, Reason,
  Context, requested, refreshed, Run, persist_progress, earliest, latest, is_mature, has_budget,
}

-- A turn, or a part of one, that goes on, or breaks the loop with a reason.
pub data Turn (W : Type 0) : Type 0 where
  going : Run W → Turn W
  broken : Reason → Run W → Turn W

-- `parsed_times`, as their minimum and maximum.
unfoldable pub parsed_times : {W : Type 0} → History W → List RawTrade → Option ℕ × Option ℕ
unfolding earliest latest
parsed_times x [] = (none, none)
parsed_times x (raw ∷ rest) =
    let (first, last) = parsed_times x rest in
    (earliest (x.traded_at raw) first, latest (x.traded_at raw) last)

unfoldable pub requested_limit : {W : Type 0} → BootstrapSettings → Run W → ℕ
requested_limit c r =
    min (min (page_size c) (max_trades c - r.rows_fetched)) (max_offset - r.offset)

module _ {W : Type 0} (state : Context) where
  -- The new window behind the bound on the offset, which ends at the oldest trade that was seen.
  unfoldable pub roll_to : Option ℕ → Run W → Turn W
  unfolding persist_progress
  roll_to none r = broken Reason.configured_limit_reached r
  roll_to (some oldest) r =
      if leb r.end_ts oldest
      then broken Reason.configured_limit_reached r
      else going (persist_progress state (record r { end_ts = oldest; offset = 0 }))

  unfoldable pub roll : Run W → Turn W
  unfolding roll_to
  roll r = if leb max_offset r.offset then roll_to r.window_oldest r else going r

  -- The slot of a page and of a request, persisted before the call.
  unfoldable pub reserve : Run W → Run W
  unfolding persist_progress
  reserve r = persist_progress state (record r {
    pages = r.pages + 1;
    pages_this_run = r.pages_this_run + 1;
    requests = r.requests + 1;
  })

  -- The reserved run after its call, with what the call made of the world.
  unfoldable pub called : BootstrapSettings → Run W → W → Run W
  unfolding reserve requested_limit
  called c r world =
      let reserved = reserve r in
      record reserved {
        world = world;
        trace = requested (requested_limit c reserved) reserved.offset ∷ reserved.trace;
      }

-- What becomes of the answer of `refresh_settlements`.
unfoldable pub refresh_result : {W : Type 0} → List ℕ → Option (ℕ × ℕ) → Run W → Turn W
refresh_result markets none r = broken Reason.upstream_error r
refresh_result markets (some (errors, checked)) r =
    if not (errors == 0)
    then broken Reason.upstream_error r
    else if checked == length markets
    then going (record r { settlement_checked = r.settlement_checked ++ markets })
    else going r

module _ {W : Type 0} (x : History W) (state : Context) where
  -- The page of rows that came back.
  unfoldable pub keep_page : List RawTrade → Run W → Run W
  unfolding persist_progress parsed_times earliest latest
  keep_page rows r =
      let (first, last) = parsed_times x rows in
      let ((inserted, quarantined), world) = x.ingest rows r.world in
      persist_progress state (record r {
        world = world;
        rows_fetched = r.rows_fetched + length rows;
        window_oldest = elim first [ none ↦ r.window_oldest | some t ↦ some (t / second_micros) ];
        oldest = earliest r.oldest first;
        newest = latest r.newest last;
        inserted_total = r.inserted_total + inserted;
        quarantined_total = r.quarantined_total + quarantined;
        duplicates_total = r.duplicates_total + (length rows - inserted - quarantined);
        offset = r.offset + length rows;
      })

  unfoldable pub settle : List ℕ → Run W → Turn W
  unfolding persist_progress refresh_result
  settle [] r = going r
  settle (m ∷ ms) r =
      let markets = m ∷ ms in
      let reserved =
        persist_progress state (record r { requests = r.requests + 2 * length markets }) in
      let (answer, world) = x.refresh markets reserved.world in
      refresh_result markets answer
        (record reserved { world = world; trace = refreshed (length markets) ∷ reserved.trace })

module _ {W : Type 0} (x : History W) (c : BootstrapSettings) where
  -- The bound on the markets to settle, within the budgets.
  unfoldable pub settlement_limit : Run W → ℕ
  settlement_limit r =
      let remaining =
        if x.gamma_backoff r.world
        then 0
        else c.bootstrap_max_settlement_markets - length r.settlement_checked in
      min (if ltb (x.evidence r.world).settled_count min_settled_markets then remaining else 0)
        ((max_requests c - r.requests) / 2)

  -- The end of a turn, by the limit of its page and the rows that came.
  unfoldable pub judge : ℕ → ℕ → ℕ → Run W → Turn W
  unfolding earliest latest is_mature
  judge now limit rows r =
      let e = x.evidence r.world in
      let oldest = earliest r.oldest e.oldest in
      let mature = is_mature now e.local_count e.settled_count oldest in
      let r' = record r { oldest = oldest; newest = latest r.newest e.newest; mature = mature } in
      if mature
      then broken Reason.maturity_satisfied r'
      else if ltb rows limit
      then broken Reason.history_exhausted r'
      else if leb (max_requests c) r.requests
          || leb (max_pages c) r.pages
          || leb (max_trades c) r.rows_fetched
      then broken Reason.configured_limit_reached r'
      else going r'

  unfoldable pub judge_after : ℕ → ℕ → ℕ → Turn W → Turn W
  unfolding judge
  judge_after now limit rows (broken reason r) = broken reason r
  judge_after now limit rows (going r) = judge now limit rows r

-- What follows a turn.
unfoldable pub loop_after :
    {W : Type 0} → (Run W → Option (Reason × Run W)) → Turn W → Option (Reason × Run W)
loop_after again (broken reason r) = some (reason, r)
loop_after again (going r) = again r

module _ {W : Type 0} (x : History W) (c : BootstrapSettings) (now : ℕ) (state : Context) where
  -- A turn from the answer of `get_trades` on.
  unfoldable pub answer_page : ℕ → Option (List RawTrade) → Run W → Turn W
  unfolding keep_page settlement_limit settle judge_after
  answer_page limit none r = broken Reason.upstream_error r
  answer_page limit (some []) r = broken Reason.history_exhausted r
  answer_page limit (some (raw ∷ rest)) r =
      let rows = raw ∷ rest in
      let r' = keep_page x state rows r in
      judge_after x c now limit (length rows)
        (settle x state (x.unsettled r'.settlement_checked (settlement_limit x c r') r'.world) r')

  -- The call, with its limit.
  unfoldable pub request_page : Run W → Turn W
  unfolding reserve requested_limit called answer_page
  request_page r =
      let reserved = reserve state r in
      let limit = requested_limit c reserved in
      let (answer, world) = x.get_trades limit reserved.offset reserved.end_ts reserved.world in
      answer_page limit answer (called state c r world)

  unfoldable pub request_after : Turn W → Turn W
  unfolding request_page
  request_after (broken reason r) = broken reason r
  request_after (going r) = request_page r

  unfoldable pub turn : Run W → Turn W
  unfolding roll request_after
  turn r = request_after (roll state r)

  -- The loop, where none is out of fuel; the reason stands until a break sets it.
  unfoldable pub run_loop : ℕ → Run W → Option (Reason × Run W)
  unfolding has_budget turn loop_after
  run_loop zero r = none
  run_loop (suc fuel) r = elim (has_budget c r) [
    | false ↦ some (Reason.configured_limit_reached, r)
    | true ↦ loop_after (run_loop fuel) (turn r)
  ]
