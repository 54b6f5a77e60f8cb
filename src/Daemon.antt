-- ===== src/Daemon.antt =====
-- backend/src/polycopy/bot/daemon.py: the loop of the bot. What a cycle comes to is an argument of each
-- tick: it raises, or it ends with the counts that `run_bot_cycle` looks at. Heartbeats stand latest
-- first, a write that fails writes none, and a scoring is kept as the time of its start. The time of the
-- heartbeats is that of the UTC clock in microseconds, and that of the scoring is the monotonic clock in
-- seconds. The throttle of the log entries and the wait between the ticks are left out.
pub mod Scoring
pub mod Health
mod Tests
use poly.Prelude.{
  ℕ, ◌+◌, max, Bool, true, false, ◌||◌, Option, none, some, List, [], ◌∷◌, if◌then◌else◌, leb, ltb,
}
use poly.Watchdog.{ServiceHeartbeat, bot_alive, bot_success, bot_failure}

-- The counts of a cycle.
pub record BotCycle : Type 0 where
  pub failed_wallets : ℕ
  pub quarantined_rows : ℕ
  pub settlement_errors : ℕ

-- One tick: the times of its two heartbeats, where none is a write that failed, the cycle, where none is
-- an exception, the clock behind it, and whether a scoring that is due raises.
pub record Tick : Type 0 where
  pub alive_at : Option ℕ
  pub cycle : Option BotCycle
  pub score_clock : ℕ
  pub scoring_raises : Bool
  pub end_at : Option ℕ

pub record Daemon : Type 0 where
  pub heartbeats : List ServiceHeartbeat
  pub next_scoring_at : ℕ
  pub scorings : List ℕ

-- `degraded`
unfoldable pub is_degraded : BotCycle → Bool
is_degraded c = ltb 0 c.failed_wallets || ltb 0 c.quarantined_rows || ltb 0 c.settlement_errors

-- `_write_heartbeat_safely`
unfoldable pub write_heartbeat_safely : ℕ → Option ℕ → Daemon → Daemon
write_heartbeat_safely service none d = d
write_heartbeat_safely service (some now) d = record d {
  heartbeats = record { service = service; seen_at = now } ∷ d.heartbeats;
}

-- The scoring of candidates, if it is due: the cadence is reserved before it starts.
unfoldable pub score_if_due : ℕ → ℕ → Daemon → Daemon
score_if_due interval clock d =
    if leb d.next_scoring_at clock
    then record d { next_scoring_at = clock + max 60 interval; scorings = clock ∷ d.scorings }
    else d

-- Whether a cycle ends with the failure heartbeat, by whether its scoring raised.
unfoldable pub cycle_failed : Bool → Option BotCycle → Bool
unfolding is_degraded
cycle_failed scoring_raised none = true
cycle_failed scoring_raised (some c) = scoring_raised || is_degraded c

-- The same of a tick, by the state before its scoring.
unfoldable pub is_failed : Tick → Daemon → Bool
unfolding cycle_failed
is_failed t d =
    cycle_failed (if leb d.next_scoring_at t.score_clock then t.scoring_raises else false) t.cycle

-- The scoring of a tick, which a cycle that raised does not reach.
unfoldable pub score_tick : ℕ → Tick → Daemon → Daemon
unfolding score_if_due
score_tick interval t d = elim t.cycle [ none ↦ d | some c ↦ score_if_due interval t.score_clock d ]

-- One round of the loop.
unfoldable pub run_tick : ℕ → Tick → Daemon → Daemon
unfolding write_heartbeat_safely score_tick is_failed
run_tick interval t d =
    let alive = write_heartbeat_safely bot_alive t.alive_at d in
    write_heartbeat_safely (if is_failed t alive then bot_failure else bot_success) t.end_at
      (score_tick interval t alive)

unfoldable pub run : ℕ → List Tick → Daemon → Daemon
unfolding run_tick
run interval [] d = d
run interval (t ∷ ticks) d = run interval ticks (run_tick interval t d)

-- The state at the start of the loop.
abbrev pub started : Daemon
started = record { heartbeats = []; next_scoring_at = 0; scorings = [] }
