-- ===== src/Throttle/Tests.antt =====
-- Runs of backend/src/polycopy/failure_throttle.py.
use poly.Prelude.{◌+◌, ◌*◌, ◌/◌, ◌≤◌, ◌≡◌, refl, some, [], ◌∷◌, lookup, arith}
use poly.Throttle.{State, FailureLogThrottle, record_all}
use poly.Throttle.Rate.{full_traces, summaries, record_all_rate, record_all-summaries}

abbrev test_state : State
test_state = record { last_trace_at = 100; repeats_since_trace = 1 }

abbrev test_throttle : FailureLogThrottle
test_throttle = record { trace_interval = 60; summary_every = 2; states = (7, test_state) ∷ [] }

test_known : lookup 7 test_throttle.states ≡ some test_state
test_known = refl

record_all_rate_example :
    100 + 60 * full_traces (record_all test_throttle 7 (110 ∷ 165 ∷ 170 ∷ 230 ∷ [])).1 ≤ 230
record_all_rate_example =
    record_all_rate test_throttle 7 (110 ∷ 165 ∷ 170 ∷ 230 ∷ []) test_state 230 test_known
      (omega arith) (omega arith, (omega arith, (omega arith, (omega arith, tt))))

record_all-summaries_example :
    let ds = (record_all test_throttle 7 (110 ∷ 120 ∷ 130 ∷ [])).1 in
    (full_traces ds ≡ 0) × (1 / 2 + summaries ds ≡ (1 + 3) / 2)
record_all-summaries_example =
    record_all-summaries test_throttle 7 (110 ∷ 120 ∷ 130 ∷ []) test_state (omega arith) test_known
      (omega arith, (omega arith, (omega arith, tt)))
