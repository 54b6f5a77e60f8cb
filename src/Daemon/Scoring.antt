-- ===== src/Daemon/Scoring.antt =====
-- How often the loop of backend/src/polycopy/bot/daemon.py scores candidates.
use poly.Prelude.{
  ℕ, ◌+◌, ◌≤◌, ◌≡◌, refl, max, Option, none, some, List, [], ◌∷◌, if◌then◌else◌, if_case, leb,
  arith,
}
use poly.Watchdog.{bot_alive, bot_success, bot_failure}
use poly.Daemon.{
  Tick, Daemon, write_heartbeat_safely, score_if_due, is_failed, score_tick, run_tick, run, started,
}

-- Times, the latest first, that are at least a gap apart, and the last of them a gap before a bound.
abbrev pub IsSpaced : ℕ → List ℕ → Type 0
IsSpaced gap [] = Unit
IsSpaced gap (t ∷ []) = Unit
IsSpaced gap (t ∷ u ∷ ts) = (u + gap ≤ t) × IsSpaced gap (u ∷ ts)

abbrev IsDue : ℕ → ℕ → List ℕ → Type 0
IsDue gap next [] = Unit
IsDue gap next (t ∷ ts) = t + gap ≡ next

abbrev IsPaced : ℕ → Daemon → Type 0
IsPaced gap d = IsSpaced gap d.scorings × IsDue gap d.next_scoring_at d.scorings

IsSpaced-cons :
    (gap next clock : ℕ) (ts : List ℕ)
    → IsSpaced gap ts
    → IsDue gap next ts
    → next ≤ clock
    → IsSpaced gap (clock ∷ ts)
IsSpaced-cons gap next clock [] s d h = tt
IsSpaced-cons gap next clock (t ∷ ts) s d h = (omega arith, s)

module _ (interval : ℕ) where
  write_heartbeat_safely-IsPaced :
      (gap service : ℕ) (o : Option ℕ) (d : Daemon)
      → IsPaced gap d
      → IsPaced gap (write_heartbeat_safely service o d)
  unfolding write_heartbeat_safely
  write_heartbeat_safely-IsPaced gap service none d p = p
  write_heartbeat_safely-IsPaced gap service (some now) d p = p

  score_if_due-IsPaced :
      (clock : ℕ) (d : Daemon)
      → IsPaced (max 60 interval) d
      → IsPaced (max 60 interval) (score_if_due interval clock d)
  unfolding score_if_due
  score_if_due-IsPaced clock d p =
      let gap = max 60 interval in
      if_case (IsPaced gap) (leb d.next_scoring_at clock)
        (record d { next_scoring_at = clock + gap; scorings = clock ∷ d.scorings }) d
        (λ due. (IsSpaced-cons gap d.next_scoring_at clock d.scorings p.0 p.1 (ground arith), refl))
        (λ _. p)

  run_tick-IsPaced :
      (t : Tick) (d : Daemon)
      → IsPaced (max 60 interval) d
      → IsPaced (max 60 interval) (run_tick interval t d)
  unfolding run_tick score_tick
  run_tick-IsPaced t d p =
      let gap = max 60 interval in
      let alive = write_heartbeat_safely bot_alive t.alive_at d in
      let p' = write_heartbeat_safely-IsPaced gap bot_alive t.alive_at d p in
      write_heartbeat_safely-IsPaced gap (if is_failed t alive then bot_failure else bot_success)
        t.end_at (score_tick interval t alive)
        (elim t.cycle
          as (λ o. IsPaced gap (elim o as (λ _. Daemon) [
            | none ↦ alive
            | some c ↦ score_if_due interval t.score_clock alive
          ])) [ none ↦ p' | some c ↦ score_if_due-IsPaced t.score_clock alive p' ])

  run-IsPaced :
      (ticks : List Tick) (d : Daemon)
      → IsPaced (max 60 interval) d
      → IsPaced (max 60 interval) (run interval ticks d)
  unfolding run
  run-IsPaced [] d p = p
  run-IsPaced (t ∷ ticks) d p = run-IsPaced ticks (run_tick interval t d) (run_tick-IsPaced t d p)

  -- Whatever the cycles and the scorings come to, exceptions included, and whatever the clock says, two
  -- scorings of candidates start at least the configured interval apart, and at least 60 seconds.
  pub run-IsSpaced :
      (ticks : List Tick) → IsSpaced (max 60 interval) (run interval ticks started).scorings
  run-IsSpaced ticks = (run-IsPaced ticks started (tt, tt)).0
