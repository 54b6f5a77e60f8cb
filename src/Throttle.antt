-- ===== src/Throttle.antt =====
-- backend/src/polycopy/failure_throttle.py: the throttle of repeated failure logs. Times are whole
-- ticks of the monotonic clock. A signature is only hashed and compared, so it is a number; the
-- first component of a tuple signature is given by a function. A non-positive parameter of the
-- constructor is the number 0.
pub mod Rate
mod Tests
use poly.Prelude.{
  ℕ, ◌+◌, ◌%◌, Bool, true, false, not, Option, none, some, List, [], ◌∷◌, leb, ◌==◌, if◌then◌else◌,
  Dict, lookup, insert, retain,
}

pub record FailureLogDecision : Type 0 where
  pub full_trace : Bool
  pub emit_summary : Bool
  pub repeat_count : ℕ

pub record State : Type 0 where
  pub last_trace_at : ℕ
  pub repeats_since_trace : ℕ

pub record FailureLogThrottle : Type 0 where
  pub trace_interval : ℕ
  pub summary_every : ℕ
  pub states : Dict State

-- `__init__`; `none` is the ValueError.
unfoldable new_throttle : ℕ → ℕ → Option FailureLogThrottle
new_throttle interval every =
    if interval == 0
    then none
    else if every == 0
    then none
    else some (record { trace_interval = interval; summary_every = every; states = [] })

-- The body of `record` on the state that is stored for the signature.
pub observe : FailureLogThrottle → Option State → ℕ → State × FailureLogDecision
observe t none current = (
  record { last_trace_at = current; repeats_since_trace = 0 },
  record { full_trace = true; emit_summary = false; repeat_count = 1 },
)
observe t (some s) current =
    let repeats = s.repeats_since_trace + 1 in
    if leb (s.last_trace_at + t.trace_interval) current
    then (
      record { last_trace_at = current; repeats_since_trace = 0 },
      record { full_trace = true; emit_summary = false; repeat_count = repeats + 1 },
    )
    else (
      record { last_trace_at = s.last_trace_at; repeats_since_trace = repeats },
      record {
        full_trace = false;
        emit_summary = (repeats % t.summary_every) == 0;
        repeat_count = repeats + 1;
      },
    )

-- `record`
unfoldable pub record_failure : FailureLogThrottle → ℕ → ℕ → FailureLogThrottle × FailureLogDecision
record_failure t signature now =
    let (s, d) = observe t (lookup signature t.states) now in
    (record t { states = insert signature s t.states }, d)

-- `clear_prefix`, where `first` is the first component of a signature that is a non-empty tuple.
pub is_doomed : (ℕ → Option ℕ) → ℕ → ℕ → Bool
is_doomed first prefix key = elim (first key) [ none ↦ false | some p ↦ p == prefix ]

pub clear_prefix : (ℕ → Option ℕ) → ℕ → FailureLogThrottle → FailureLogThrottle
unfolding is_doomed
clear_prefix first prefix t = record t {
  states = retain (λ key. not (is_doomed first prefix key)) t.states;
}

-- The decisions of a run of calls for one signature.
pub record_all : FailureLogThrottle → ℕ → List ℕ → FailureLogThrottle × List FailureLogDecision
unfolding record_failure
record_all t signature [] = (t, [])
record_all t signature (now ∷ times) =
    let (t', d) = record_failure t signature now in
    let (t'', ds) = record_all t' signature times in (t'', d ∷ ds)
