-- ===== src/Watchdog/Status.antt =====
-- When the watchdog (backend/src/polycopy/watchdog.py) says that all is well.
use poly.Prelude.{
  ℕ, ◌+◌, ◌≡◌, ◌↔◌, refl, max, Bool, true, false, not, ◌&&◌, ◌||◌, Option, none, some, List, [],
  ◌∷◌, arith, leb, ◌==◌, Dict, lookup, lookup-insert, or_else, any, ◌-◌, Option-cases, inl, inr,
}
use poly.Watchdog.{
  bot_alive, bot_success, bot_failure, success_stale_micros, ServiceHeartbeat, HeartbeatStatus,
  note_row, latest_from, is_stale, is_later, heartbeat_status,
}

-- A row of the service that was seen at the time or later.
abbrev pub is_since : ℕ → ℕ → ServiceHeartbeat → Bool
is_since service time row = row.service == service && leb time row.seen_at

-- A failure such that no row among `all` reports a success at the same time or later.
abbrev pub is_unanswered : List ServiceHeartbeat → ServiceHeartbeat → Bool
is_unanswered all row =
    row.service == bot_failure && not (any (is_since bot_success row.seen_at) all)

-- The latest time at which a heartbeat is stale, plus one.
abbrev pub oldest_recent : ℕ → ℕ
oldest_recent now = now - success_stale_micros

-- Whether a time that may be absent is at least some bound.
abbrev reaches : ℕ → Option ℕ → Bool
reaches bound none = false
reaches bound (some seen) = leb bound seen

reaches-note_row :
    (latest : Dict ℕ) (row : ServiceHeartbeat) (service bound : ℕ)
    → reaches bound (lookup service (note_row latest row))
      ≡ (reaches bound (lookup service latest) || is_since service bound row)
unfolding note_row
reaches-note_row latest row service bound = ground (
  arith,
  lookup-insert row.service service
      (max (or_else (lookup row.service latest) row.seen_at) row.seen_at) latest,
)

-- The dict of the loop holds the newest time of each service.
reaches-latest_from :
    (rows : List ServiceHeartbeat) (latest : Dict ℕ) (service bound : ℕ)
    → reaches bound (lookup service (latest_from latest rows))
      ≡ (reaches bound (lookup service latest) || any (is_since service bound) rows)
unfolding latest_from
reaches-latest_from [] latest service bound = ground arith
reaches-latest_from (row ∷ rows) latest service bound =
    rw (reaches-latest_from rows (note_row latest row) service bound)
      (ground (arith, reaches-note_row latest row service bound))

is_stale-reaches :
    (seen : Option ℕ) (now : ℕ) → is_stale seen now ≡ not (reaches (oldest_recent now) seen)
unfolding is_stale
is_stale-reaches none now = refl
is_stale-reaches (some seen) now = ground arith

-- Against a newest success, a failure is unanswered when it is later.
any-is_unanswered :
    (rows all : List ServiceHeartbeat) (success : ℕ)
    → ((bound : ℕ) → leb bound success ≡ any (is_since bot_success bound) all)
    → any (is_unanswered all) rows ≡ any (is_since bot_failure (success + 1)) rows
any-is_unanswered [] all success h = refl
any-is_unanswered (row ∷ rows) all success h =
    ground (arith, h row.seen_at, any-is_unanswered rows all success h)

is_later-unanswered :
    (rows : List ServiceHeartbeat) (failure : Option ℕ) (success : ℕ)
    → ((bound : ℕ) → reaches bound failure ≡ any (is_since bot_failure bound) rows)
    → ((bound : ℕ) → leb bound success ≡ any (is_since bot_success bound) rows)
    → is_later failure (some success) ≡ any (is_unanswered rows) rows
unfolding is_later
is_later-unanswered rows none success hf hs =
    ground (arith, hf (success + 1), any-is_unanswered rows rows success hs)
is_later-unanswered rows (some failure) success hf hs =
    ground (arith, hf (success + 1), any-is_unanswered rows rows success hs)

-- The verdict is `ok` exactly when some liveness row and some success row are at most ten minutes
-- old, and every failure row has a success row of the same time or later. The order of the rows does
-- not matter.
pub heartbeat_status_ok :
    (rows : List ServiceHeartbeat) (now : ℕ)
    → (heartbeat_status rows now ≡ HeartbeatStatus.ok) ↔ (
        (any (is_since bot_alive (oldest_recent now)) rows
          && any (is_since bot_success (oldest_recent now)) rows
          && not (any (is_unanswered rows) rows))
        ≡ true)
unfolding heartbeat_status
heartbeat_status_ok rows now =
    let latest : Dict ℕ = latest_from [] rows in
    let newest = reaches-latest_from rows [] in
    elim (Option-cases (lookup bot_success latest)) [
      | inl missing ↦ ground (
        arith,
        is_stale-reaches (lookup bot_success latest) now,
        newest bot_success (oldest_recent now),
      )
      | inr (success, e) ↦ ground (
        arith,
        is_stale-reaches (lookup bot_alive latest) now,
        is_stale-reaches (lookup bot_success latest) now,
        newest bot_alive (oldest_recent now),
        newest bot_success (oldest_recent now),
        is_later-unanswered rows (lookup bot_failure latest) success (newest bot_failure)
            (rw e at (newest bot_success)),
      )
    ]
