-- ===== src/Watchdog/Tests.antt =====
-- Runs of backend/src/polycopy/watchdog.py.
use poly.Prelude.{◌≡◌, ◌↔◌, refl, true, not, ◌&&◌, List, [], ◌∷◌, any, some, Bool, arith}
use poly.Watchdog.{
  bot_alive, bot_success, bot_failure, ServiceHeartbeat, HeartbeatStatus, heartbeat_status,
  WatchdogLoop, run_rounds,
}
use poly.Watchdog.Status.{is_since, is_unanswered, oldest_recent, heartbeat_status_ok}
use poly.Watchdog.Alerts.{run_rounds_alert}

abbrev test_rows : List ServiceHeartbeat
test_rows =
    record { service = bot_failure; seen_at = 40 }
    ∷ record { service = bot_alive; seen_at = 60 }
    ∷ record { service = bot_success; seen_at = 50 }
    ∷ []

test_status : heartbeat_status test_rows 100 ≡ HeartbeatStatus.ok
unfolding heartbeat_status
test_status = refl

heartbeat_status_ok_example : (heartbeat_status test_rows 100 ≡ HeartbeatStatus.ok) ↔ (
    (any (is_since bot_alive (oldest_recent 100)) test_rows
      && any (is_since bot_success (oldest_recent 100)) test_rows
      && not (any (is_unanswered test_rows) test_rows))
    ≡ true)
heartbeat_status_ok_example = heartbeat_status_ok test_rows 100

abbrev test_loop : WatchdogLoop
test_loop = record { previous = some HeartbeatStatus.bot_cycle_failing; ticks_since_log = 4 }

abbrev test_bad : List HeartbeatStatus
test_bad = HeartbeatStatus.bot_cycle_failing ∷ HeartbeatStatus.bot_cycle_failing ∷ []

run_rounds_alert_example : any (λ (logs : Bool). logs) (run_rounds test_loop test_bad).1 ≡ true
run_rounds_alert_example =
    run_rounds_alert test_loop test_bad ((λ e. ground arith), ((λ e. ground arith), tt))
      (omega arith) (omega arith)
