-- ===== src/Watchdog/Alerts.antt =====
-- How long the loop of backend/src/polycopy/watchdog.py can stay silent about a bad status.
use poly.Prelude.{
  ◌+◌, ◌<◌, ◌≡◌, Bool, true, false, List, [], ◌∷◌, arith, All, any, length, ◌≢◌, Bool-cases, inl,
  inr,
}
use poly.Watchdog.{HeartbeatStatus, WatchdogLoop, run_round, run_rounds}

-- A round that logs nothing of a status that is not `ok` counts one more tick, below five.
silent_round :
    (w : WatchdogLoop) (status : HeartbeatStatus)
    → status ≢ HeartbeatStatus.ok
    → (run_round w status).1 ≡ false
    → ((run_round w status).0.ticks_since_log ≡ w.ticks_since_log + 1) × (w.ticks_since_log < 5)
unfolding run_round
silent_round w status bad silent = ground arith

-- However the loop has run before, a row of rounds whose statuses are all not `ok` logs one of them,
-- as soon as the row is not empty and, with the ticks already counted, is longer than five.
pub run_rounds_alert :
    (w : WatchdogLoop) (statuses : List HeartbeatStatus)
    → All (λ status. status ≢ HeartbeatStatus.ok) statuses
    → 0 < length statuses
    → 5 < w.ticks_since_log + length statuses
    → any (λ (logs : Bool). logs) (run_rounds w statuses).1 ≡ true
unfolding run_rounds
run_rounds_alert w [] bad some_rounds h = absurd (omega arith)
run_rounds_alert w (status ∷ rest) bad some_rounds h = elim (Bool-cases (run_round w status).1) [
  | inl logged ↦ rw logged
  | inr silent ↦
      let (counted, below) = silent_round w status bad.0 silent in
      rw silent (run_rounds_alert (run_round w status).0 rest bad.1 (omega arith) (omega arith))
]
