-- ===== src/Daemon/Tests.antt =====
-- Witnesses of backend/src/polycopy/bot/daemon.py.
use mathlib.Core.Logic.{◌↔◌}
use poly.Prelude.{◌≡◌, true, some, none, [], ◌∷◌, arith}
use poly.Watchdog.{HeartbeatStatus, heartbeat_status}
use poly.Daemon.{Tick, run_tick, run, started}
use poly.Daemon.Scoring.{IsSpaced, run-IsSpaced}
use poly.Daemon.Health.{IsHealthy, written, run_tick-IsHealthy}

-- A cycle with one failed wallet.
abbrev degraded_tick : Tick
degraded_tick = record {
  alive_at = some 5;
  cycle = some (record { failed_wallets = 1; quarantined_rows = 0; settlement_errors = 0 });
  score_clock = 0;
  scoring_raises = true;
  end_at = none;
}

run-IsSpaced_example :
    IsSpaced 60
      (run 30
        (degraded_tick
          ∷ record degraded_tick { score_clock = 30 }
          ∷ record degraded_tick { score_clock = 70 }
          ∷ [])
        started).scorings
run-IsSpaced_example = run-IsSpaced 30 (
    degraded_tick
    ∷ record degraded_tick { score_clock = 30 }
    ∷ record degraded_tick { score_clock = 70 }
    ∷ [])

run_tick-IsHealthy_example :
    (heartbeat_status (run_tick 30 (written 5 9 degraded_tick) started).heartbeats 20
      ≡ HeartbeatStatus.ok)
    ↔ IsHealthy degraded_tick started
run_tick-IsHealthy_example =
    run_tick-IsHealthy 30 degraded_tick started 5 9 20 tt (omega arith) (omega arith) (omega arith)
