-- ===== src/Daemon/Health.antt =====
-- What the watchdog says of a tick of backend/src/polycopy/bot/daemon.py.
use mathlib.Core.Logic.{◌↔◌}
use poly.Prelude.{
  subst, sym, ap, ◌⊎◌, leb, ℕ, ◌+◌, ◌≤◌, ◌<◌, ◌≡◌, refl, Bool, true, false, Option, none, some,
  List, [], ◌∷◌, if◌then◌else◌, any, All, arith,
}
use poly.Watchdog.{
  ServiceHeartbeat, HeartbeatStatus, heartbeat_status, bot_alive, bot_success, bot_failure,
  success_stale_micros,
}
use poly.Watchdog.Status.{is_since, is_unanswered, heartbeat_status_ok}
use poly.Daemon.{
  BotCycle, Tick, Daemon, write_heartbeat_safely, score_if_due, cycle_failed, is_degraded,
  is_failed, score_tick, run_tick,
}

-- Heartbeats before a time.
abbrev pub IsBefore : ℕ → List ServiceHeartbeat → Type 0
IsBefore time = All (λ (row : ServiceHeartbeat). row.seen_at < time)

none_since :
    (service time : ℕ) (rows : List ServiceHeartbeat)
    → IsBefore time rows
    → any (is_since service time) rows ≡ false
none_since service time [] h = refl
none_since service time (row ∷ rows) h =
    let rest = none_since service time rows h.1 in let low = h.0 in ground arith

abbrev heartbeat : ℕ → ℕ → ServiceHeartbeat
heartbeat service time = record { service = service; seen_at = time }

-- The rows that a tick leaves, by whether it failed.
abbrev rows_after : Bool → ℕ → ℕ → List ServiceHeartbeat → List ServiceHeartbeat
rows_after failed alive_time end_time old =
    heartbeat (if failed then bot_failure else bot_success) end_time
    ∷ heartbeat bot_alive alive_time
    ∷ old

none_unanswered :
    (end_time : ℕ) (others rows : List ServiceHeartbeat)
    → All (λ (row : ServiceHeartbeat). row.seen_at ≤ end_time) rows
    → any (is_unanswered (heartbeat bot_success end_time ∷ others)) rows ≡ false
none_unanswered end_time others [] h = refl
none_unanswered end_time others (row ∷ rows) h =
    let rest = none_unanswered end_time others rows h.1 in let low = h.0 in ground arith

weaken :
    (time : ℕ) (rows : List ServiceHeartbeat)
    → IsBefore time rows
    → All (λ (row : ServiceHeartbeat). row.seen_at ≤ time) rows
weaken time [] h = tt
weaken time (row ∷ rows) h = (omega (arith, h.0), weaken time rows h.1)

rows_after-ok :
    (failed : Bool) (alive_time end_time now : ℕ) (old : List ServiceHeartbeat)
    → IsBefore end_time old
    → alive_time ≤ end_time
    → end_time ≤ now
    → now ≤ alive_time + success_stale_micros
    → (heartbeat_status (rows_after failed alive_time end_time old) now ≡ HeartbeatStatus.ok)
      ↔ (failed ≡ false)
rows_after-ok true alive_time end_time now old before low early recent =
    let (ok_only, _) = heartbeat_status_ok (rows_after true alive_time end_time old) now in
    let none_old = none_since bot_success end_time old before in
    ((λ ok. let test = ok_only ok in ground arith), (λ h. absurd (ground arith)))
rows_after-ok false alive_time end_time now old before low early recent =
    let rows = rows_after false alive_time end_time old in
    let (_, ok_if) = heartbeat_status_ok rows now in
    let answered =
      none_unanswered end_time (heartbeat bot_alive alive_time ∷ old) rows
        (omega arith, (low, weaken end_time old before)) in
    ((λ ok. refl), (λ h. ok_if (ground arith)))

score_tick-heartbeats :
    (interval : ℕ) (t : Tick) (d : Daemon) → (score_tick interval t d).heartbeats ≡ d.heartbeats
unfolding score_tick score_if_due
score_tick-heartbeats interval t d = ground arith

-- A tick whose heartbeats are written at two times.
abbrev pub written : ℕ → ℕ → Tick → Tick
written alive_time end_time t = record t { alive_at = some alive_time; end_at = some end_time }

heartbeats-run_tick :
    (interval : ℕ) (t : Tick) (d : Daemon) (alive_time end_time : ℕ)
    → (run_tick interval (written alive_time end_time t) d).heartbeats
      ≡ rows_after (is_failed t d) alive_time end_time d.heartbeats
unfolding run_tick write_heartbeat_safely is_failed
heartbeats-run_tick interval t d alive_time end_time =
    ap (λ rows. heartbeat (if is_failed t d then bot_failure else bot_success) end_time ∷ rows)
      (score_tick-heartbeats interval (written alive_time end_time t)
        (write_heartbeat_safely bot_alive (some alive_time) d))

-- A tick whose cycle ended with no failed wallet, quarantined row or settlement error, and whose scoring
-- was not due or did not raise.
abbrev pub IsHealthy : Tick → Daemon → Type 0
IsHealthy t d =
    ((c : BotCycle) × (t.cycle ≡ some c)
      × (c.failed_wallets ≡ 0)
      × (c.quarantined_rows ≡ 0)
      × (c.settlement_errors ≡ 0))
    × ((t.score_clock < d.next_scoring_at) ⊎ (t.scoring_raises ≡ false))

cycle_failed-false :
    (raised : Bool) (o : Option BotCycle)
    → (cycle_failed raised o ≡ false) ↔ (
        ((c : BotCycle) × (o ≡ some c)
          × (c.failed_wallets ≡ 0)
          × (c.quarantined_rows ≡ 0)
          × (c.settlement_errors ≡ 0))
        × (raised ≡ false))
unfolding cycle_failed is_degraded
cycle_failed-false raised none =
    ((λ h. absurd (ground arith)), (λ h. let e = h.0.1 in absurd (grind arith)))
cycle_failed-false raised (some c) = (
  (λ h. ((c, refl, ground arith, ground arith, ground arith), ground arith)),
  (λ h. let e = h.0.1 in let free = h.1 in grind arith),
)

is_failed-IsHealthy : (t : Tick) (d : Daemon) → (is_failed t d ≡ false) ↔ IsHealthy t d
unfolding is_failed
is_failed-IsHealthy t d =
    let (there, back) =
      cycle_failed-false (if leb d.next_scoring_at t.score_clock then t.scoring_raises else false)
        t.cycle in
    (
      (λ h. let (ended, quiet) = there h in (ended, quiet_scoring quiet)),
      (λ h. back (h.0, scoring_quiet h.1)),
    )
  where
    quiet_scoring :
        (if leb d.next_scoring_at t.score_clock then t.scoring_raises else false) ≡ false
        → (t.score_clock < d.next_scoring_at) ⊎ (t.scoring_raises ≡ false)
    quiet_scoring h = ground arith

    scoring_quiet :
        (t.score_clock < d.next_scoring_at) ⊎ (t.scoring_raises ≡ false)
        → (if leb d.next_scoring_at t.score_clock then t.scoring_raises else false) ≡ false
    scoring_quiet h = ground arith

-- The watchdog answers ok after a tick whose heartbeats were written exactly if the cycle ended with no
-- failed wallet, quarantined row or settlement error and no scoring that was due raised; provided that
-- the last heartbeat is later than all that were there before and not before the first, and that the
-- watchdog looks behind both and within ten minutes of the first.
pub run_tick-IsHealthy :
    (interval : ℕ) (t : Tick) (d : Daemon) (alive_time end_time now : ℕ)
    → IsBefore end_time d.heartbeats
    → alive_time ≤ end_time
    → end_time ≤ now
    → now ≤ alive_time + success_stale_micros
    → (heartbeat_status (run_tick interval (written alive_time end_time t) d).heartbeats now
        ≡ HeartbeatStatus.ok)
      ↔ IsHealthy t d
run_tick-IsHealthy interval t d alive_time end_time now before low early recent =
    let (to_quiet, of_quiet) =
      rows_after-ok (is_failed t d) alive_time end_time now d.heartbeats before low early recent in
    let (to_healthy, of_healthy) = is_failed-IsHealthy t d in
    subst (λ rows. (heartbeat_status rows now ≡ HeartbeatStatus.ok) ↔ IsHealthy t d)
      (sym (heartbeats-run_tick interval t d alive_time end_time))
      ((λ ok. to_healthy (to_quiet ok)), (λ healthy. of_quiet (of_healthy healthy)))
