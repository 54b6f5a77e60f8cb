-- ===== src/Watchdog.antt =====
-- backend/src/polycopy/watchdog.py: the verdict on the bot's heartbeats, and the loop that logs it.
-- Times are microseconds of the UTC clock, and service names are only compared, so they are numbers.
pub mod Status
pub mod Alerts
mod Tests
use poly.Prelude.{
  ℕ, ◌+◌, ◌*◌, max, Bool, true, false, not, ◌&&◌, ◌||◌, Option, none, some, List, [], ◌∷◌, ltb, leb,
  ◌==◌, if◌then◌else◌, Dict, lookup, insert, or_else,
}

abbrev pub bot_alive : ℕ
bot_alive = 0

abbrev pub bot_success : ℕ
bot_success = 1

abbrev pub bot_failure : ℕ
bot_failure = 2

abbrev pub success_stale_micros : ℕ
success_stale_micros = 600 * 1_000_000

pub record ServiceHeartbeat : Type 0 where
  pub service : ℕ
  pub seen_at : ℕ

pub data HeartbeatStatus : Type 0 where
  bot_process_missing_or_stale bot_success_stale bot_cycle_failing ok watchdog_db_error :
      HeartbeatStatus

-- One round of the loop over the rows: `latest[s] = max(latest.get(s, stamp), stamp)`.
pub note_row : Dict ℕ → ServiceHeartbeat → Dict ℕ
note_row latest row =
    insert row.service (max (or_else (lookup row.service latest) row.seen_at) row.seen_at) latest

pub latest_from : Dict ℕ → List ServiceHeartbeat → Dict ℕ
unfolding note_row
latest_from latest [] = latest
latest_from latest (row ∷ rows) = latest_from (note_row latest row) rows

-- `x is None or (now - x).total_seconds() > SUCCESS_STALE_SECONDS`
pub is_stale : Option ℕ → ℕ → Bool
is_stale none now = true
is_stale (some seen) now = ltb (seen + success_stale_micros) now

-- `failure is not None and failure > success`, where `success` is present.
pub is_later : Option ℕ → Option ℕ → Bool
is_later (some failure) (some success) = ltb success failure
is_later _ _ = false

pub heartbeat_status : List ServiceHeartbeat → ℕ → HeartbeatStatus
unfolding latest_from is_stale is_later
heartbeat_status rows now =
    let latest = latest_from [] rows in
    let success = lookup bot_success latest in
    if is_stale (lookup bot_alive latest) now
    then HeartbeatStatus.bot_process_missing_or_stale
    else if is_stale success now
    then HeartbeatStatus.bot_success_stale
    else if is_later (lookup bot_failure latest) success
    then HeartbeatStatus.bot_cycle_failing
    else HeartbeatStatus.ok

-- `==` on two statuses, as codes.
status_code : HeartbeatStatus → ℕ
status_code HeartbeatStatus.ok = 0
status_code HeartbeatStatus.bot_process_missing_or_stale = 1
status_code HeartbeatStatus.bot_success_stale = 2
status_code HeartbeatStatus.bot_cycle_failing = 3
status_code HeartbeatStatus.watchdog_db_error = 4

pub record WatchdogLoop : Type 0 where
  pub previous : Option HeartbeatStatus
  pub ticks_since_log : ℕ

-- One round of `run`, and whether it logs the status.
pub run_round : WatchdogLoop → HeartbeatStatus → WatchdogLoop × Bool
unfolding status_code
run_round w status =
    let changed : Bool = elim w.previous [
      | none ↦ true
      | some p ↦ not (status_code p == status_code status)
    ] in
    let logs = changed || (not (status_code status == 0) && leb 5 w.ticks_since_log) in
    let ticks = if logs then 0 else w.ticks_since_log in
    (record { previous = some status; ticks_since_log = ticks + 1 }, logs)

pub run_rounds : WatchdogLoop → List HeartbeatStatus → WatchdogLoop × List Bool
run_rounds w [] = (w, [])
run_rounds w (status ∷ rest) =
    let (w', logs) = run_round w status in
    let (w'', all_logs) = run_rounds w' rest in (w'', logs ∷ all_logs)
