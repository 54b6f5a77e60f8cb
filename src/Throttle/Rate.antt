-- ===== src/Throttle/Rate.antt =====
-- How often the failure throttle (backend/src/polycopy/failure_throttle.py) lets a message through.
use poly.Prelude.{
  Option, not, true, false, if◌then◌else◌, Bool-cases, inl, inr, lookup-retain, ℕ, ◌+◌, ◌*◌, ◌/◌,
  ◌%◌, ◌<◌, ap, ◌==◌, false, ◌≤◌, ◌≡◌, refl, some, List, [], ◌∷◌, arith, if◌then◌else◌, lookup,
  lookup-insert, All, sum_by, length, suc, ◌≢◌,
}
use native.Mathlib.Nat.{div-add-mod, mod-lt, div-eq_of_lt-le}
use native.Mathlib.Decide.{dec_le}
use poly.Throttle.{
  is_doomed, clear_prefix, FailureLogDecision, State, FailureLogThrottle, observe, record_failure,
  record_all,
}

-- The number of full traces among some decisions.
abbrev pub full_traces : List FailureLogDecision → ℕ
full_traces = sum_by (λ d. if d.full_trace then 1 else 0)

-- A call for one signature leaves the state of another as it is.
pub record_failure_others :
    (t : FailureLogThrottle) (signature other now : ℕ)
    → signature ≢ other
    → lookup other (record_failure t signature now).0.states ≡ lookup other t.states
unfolding record_failure
record_failure_others t signature other now ne =
    ground
      (arith, lookup-insert signature other (observe t (lookup signature t.states) now).0 t.states)

lookup-record_failure :
    (t : FailureLogThrottle) (signature now : ℕ)
    → lookup signature (record_failure t signature now).0.states
      ≡ some (observe t (lookup signature t.states) now).0
unfolding record_failure
lookup-record_failure t signature now = ground (
  arith,
  lookup-insert signature signature (observe t (lookup signature t.states) now).0 t.states,
)

-- One call for a known signature: its new state is stored, and a trace moves the time of the last
-- trace by an interval at least.
record_failure_known :
    (t : FailureLogThrottle) (signature now latest : ℕ) (s : State)
    → lookup signature t.states ≡ some s
    → s.last_trace_at ≤ latest
    → now ≤ latest
    → let (t', d) = record_failure t signature now in
      (s' : State) × (lookup signature t'.states ≡ some s')
      × (s'.last_trace_at ≤ latest)
      × (t'.trace_interval ≡ t.trace_interval)
      × (s.last_trace_at + t.trace_interval * (if d.full_trace then 1 else 0) ≤ s'.last_trace_at)
unfolding record_failure observe
record_failure_known t signature now latest s known first h = (
  (observe t (some s) now).0,
  rw (lookup-record_failure t signature now, known) refl,
  ground arith,
  refl,
  ground arith,
)

-- Take any run of calls for a signature that is known at its start. The full traces of the run are
-- so far apart that all their intervals fit between the last trace before the run and the latest
-- time of the run.
pub record_all_rate :
    (t : FailureLogThrottle) (signature : ℕ) (times : List ℕ) (s : State) (latest : ℕ)
    → lookup signature t.states ≡ some s
    → s.last_trace_at ≤ latest
    → All (λ now. now ≤ latest) times
    → s.last_trace_at + t.trace_interval * full_traces (record_all t signature times).1 ≤ latest
unfolding record_all
record_all_rate t signature [] s latest known first bound = omega arith
record_all_rate t signature (now ∷ times) s latest known first (h, bound) =
    let (s', known', first', same, paid) =
      record_failure_known t signature now latest s known first h in
    let t' = (record_failure t signature now).0 in
    let rest = record_all_rate t' signature times s' latest known' first' bound in
    let rest' : s'.last_trace_at + t.trace_interval * full_traces (record_all t' signature times).1
        ≤ latest =
      rw same at rest in
    omega arith

-- The number of summaries among some decisions.
abbrev pub summaries : List FailureLogDecision → ℕ
summaries = sum_by (λ d. if d.emit_summary then 1 else 0)

next_multiple :
    (r every : ℕ)
    → 0 < every
    → (r + 1) / every ≡ r / every + (if ((r + 1) % every) == 0 then 1 else 0)
next_multiple r every h =
    let here = div-add-mod r every in
    let next = div-add-mod (r + 1) every in
    let small : r % every < every = mod-lt r h in
    let small' : (r + 1) % every < every = mod-lt (r + 1) h in
    elim (dec_le every (r % every + 1)) [
      | yes wraps ↦
          let q : (r + 1) / every ≡ r / every + 1 =
            div-eq_of_lt-le every (omega arith) (omega arith) in
          rw q (ground (arith, ap (λ n. every * n) q))
      | no stays ↦
          let q : (r + 1) / every ≡ r / every = div-eq_of_lt-le every (omega arith) (omega arith) in
          rw q (ground (arith, ap (λ n. every * n) q))
    ]

-- One call before the interval has elapsed.
record_failure_early :
    (t : FailureLogThrottle) (signature now : ℕ) (s : State)
    → 0 < t.summary_every
    → lookup signature t.states ≡ some s
    → now < s.last_trace_at + t.trace_interval
    → let (t', d) = record_failure t signature now in
      (s' : State) × (lookup signature t'.states ≡ some s')
      × (s'.last_trace_at ≡ s.last_trace_at)
      × (t'.trace_interval ≡ t.trace_interval)
      × (t'.summary_every ≡ t.summary_every)
      × (s'.repeats_since_trace ≡ s.repeats_since_trace + 1)
      × (d.full_trace ≡ false)
      × (s.repeats_since_trace / t.summary_every + (if d.emit_summary then 1 else 0)
          ≡ s'.repeats_since_trace / t.summary_every)
unfolding record_failure observe
record_failure_early t signature now s pos known early = (
  (observe t (some s) now).0,
  rw (lookup-record_failure t signature now, known) refl,
  ground arith,
  refl,
  refl,
  ground arith,
  ground arith,
  ground (arith, next_multiple s.repeats_since_trace t.summary_every pos),
)

-- Calls for a known signature that all come before the trace interval has elapsed: none of them is
-- fully traced, and one summary goes out for every `summary_every` repeats, counted from the trace.
pub record_all-summaries :
    (t : FailureLogThrottle) (signature : ℕ) (times : List ℕ) (s : State)
    → 0 < t.summary_every
    → lookup signature t.states ≡ some s
    → All (λ now. now < s.last_trace_at + t.trace_interval) times
    → let ds = (record_all t signature times).1 in
      (full_traces ds ≡ 0)
      × (s.repeats_since_trace / t.summary_every + summaries ds
          ≡ (s.repeats_since_trace + length times) / t.summary_every)
unfolding record_all
record_all-summaries t signature [] s pos known early = (refl, ground arith)
record_all-summaries t signature (now ∷ times) s pos known (h, early) =
    let (s', known', last, interval, every, repeats, silent, counted) =
      record_failure_early t signature now s pos known h in
    let t' = (record_failure t signature now).0 in
    let (quiet, exact) =
      record_all-summaries t' signature times s' (rw every pos) known'
        (rw (last, interval) early) in
    let moved : s'.repeats_since_trace + length times ≡ s.repeats_since_trace + suc (length times) =
      omega arith in
    let exact' = rw (every, moved) at exact in (rw silent (omega arith), omega arith)

-- After a prefix is cleared, the next call for a signature with that prefix is a full trace that counts
-- one, as the first call ever is, and a call for any other signature decides as it would have before.
pub clear_prefix_next :
    (first : ℕ → Option ℕ) (prefix signature now : ℕ) (t : FailureLogThrottle)
    → (record_failure (clear_prefix first prefix t) signature now).1 ≡ (
        if is_doomed first prefix signature
        then record { full_trace = true; emit_summary = false; repeat_count = 1 }
        else (record_failure t signature now).1)
unfolding record_failure clear_prefix observe
clear_prefix_next first prefix signature now t =
    let kept = lookup-retain (λ key. not (is_doomed first prefix key)) signature t.states in
    elim (Bool-cases (is_doomed first prefix signature)) [
      | inl doomed ↦ ground arith
      | inr other ↦ ground arith
    ]
