-- ===== src/Ingestion/Client.antt =====
-- backend/src/polycopy/ingestion/client.py: the retries of `_get` with the cooldown of Gamma, and the
-- markets that are taken from an answer, with `_lookup_closed_gamma_market` of
-- backend/src/polycopy/accounting/settlements.py. What HTTP answers and when is an argument. Times are
-- microseconds of the monotonic clock; sleeps are counted in half seconds. The concurrency cap is not
-- in the model.
pub mod Cooldown
pub mod Lookup
mod Tests
use poly.Prelude.{
  ℕ, zero, suc, ◌+◌, ◌-◌, ◌*◌, ◌^◌, min, max, Bool, true, false, ◌&&◌, ◌||◌, Option, none, some,
  List, [], ◌∷◌, ◌==◌, if◌then◌else◌, ltb, any, ℤ, pos_part,
}
use poly.Settlements.{second_micros}
use poly.Ingestion.Identity.{Text}

-- The header `retry-after`: a number, or a date by its distance from now, or neither.
pub data Header : Type 0 where
  seconds date : ℤ → Header
  unreadable : Header

abbrev clamp_delay : ℤ → ℕ
clamp_delay z = min (300 * second_micros) (max second_micros (pos_part z))

-- `_retry_after_seconds`, where a missing header is none.
unfoldable pub retry_after_seconds : Option Header → ℕ
retry_after_seconds (some (seconds z)) = clamp_delay z
retry_after_seconds (some (date z)) = clamp_delay z
retry_after_seconds _ = 60 * second_micros

-- The outcome of one request; the body is none if it is not JSON.
pub data Reply (B : Type 0) : Type 0 where
  transport_error : Reply B
  response : ℕ → Option Header → Option B → Reply B

-- What `_get` returns, or the errors that it raises.
pub data Answer (B : Type 0) : Type 0 where
  body : B → Answer B
  not_json exhausted : Answer B
  cooling rate_limited refused : ℕ → Answer B

-- The client, with what one call of `_get` did.
pub record Client : Type 0 where
  pub gamma_backoff_until : ℕ
  pub sent : ℕ
  pub slept : ℕ

-- An attempt: the time of its test, the outcome, and the time of the outcome.
pub record Attempt (B : Type 0) : Type 0 where
  pub before : ℕ
  pub reply : Reply B
  pub after : ℕ

abbrev pub max_retries : ℕ
max_retries = 3

unfoldable pub is_retryable : ℕ → Bool
is_retryable status =
    status == 429 || status == 500 || status == 502 || status == 503 || status == 504

-- The answer to an outcome, where none is to try again.
unfoldable pub answer_of : {B : Type 0} → Bool → Reply B → Option (Answer B)
unfolding is_retryable retry_after_seconds
answer_of gamma transport_error = none
answer_of gamma (response status header json) =
    if status == 200
    then some (elim json [ none ↦ not_json | some b ↦ body b ])
    else if gamma && status == 429
    then some (rate_limited (retry_after_seconds header))
    else if is_retryable status
    then none
    else some (refused status)

-- The cooldown that an answer sets.
unfoldable pub backoff_after : {B : Type 0} → Answer B → ℕ → ℕ → ℕ
backoff_after (rate_limited delay) after until = after + delay
backoff_after _ after until = until

-- The end of an attempt, by its answer and the call for the next one.
unfoldable pub after_attempt :
    {B : Type 0}
    → ℕ
    → ℕ
    → Option (Answer B)
    → (Client → Answer B × Client)
    → ℕ
    → Client
    → Answer B × Client
unfolding backoff_after
after_attempt left n none again after c =
    again (record c { sent = c.sent + 1; slept = if left == 0 then c.slept else c.slept + 2 ^ n })
after_attempt left n (some a) again after c = (
  a,
  record c { sent = c.sent + 1; gamma_backoff_until = backoff_after a after c.gamma_backoff_until },
)

-- The loop of the attempts, by the number that is left and the number of the next.
unfoldable pub attempts : {B : Type 0} → Bool → (ℕ → Attempt B) → ℕ → ℕ → Client → Answer B × Client
unfolding answer_of after_attempt
attempts gamma net zero n c = (exhausted, c)
attempts gamma net (suc left) n c =
    let a = net n in
    let rest =
      after_attempt left n (answer_of gamma a.reply) (attempts gamma net left (n + 1)) a.after c in
    if gamma && ltb a.before c.gamma_backoff_until
    then (cooling (c.gamma_backoff_until - a.before), c)
    else rest

-- `_get`
unfoldable pub get : {B : Type 0} → Bool → (ℕ → Attempt B) → Client → Answer B × Client
unfolding attempts
get gamma net c = attempts gamma net max_retries 0 (record c { sent = 0; slept = 0 })

-- A market of Gamma before it is parsed, which may fail, and after: none is the failure.
pub record RawMarkets (R M : Type 0) : Type 0 where
  pub lower : Text → Text
  pub condition_id : R → Text
  pub parse : R → Option M
  pub token_ids : M → List Text

-- The outcome of a lookup; invalid is the error of the parser.
pub data Found (M : Type 0) : Type 0 where
  found : M → Found M
  missing invalid : Found M

-- Two texts that are equal.
unfoldable pub same_text : Text → Text → Bool
same_text [] [] = true
same_text (a ∷ rest) (b ∷ bs) = a == b && same_text rest bs
same_text _ _ = false

-- `gamma, gamma is not None`
unfoldable pub with_hit : {M : Type 0} → Found M → Found M × Bool
with_hit (found m) = (found m, true)
with_hit missing = (missing, false)
with_hit invalid = (invalid, false)

unfoldable pub or_fallback : {M : Type 0} → Found M → Found M × Bool → Found M × Bool
or_fallback (found m) later = (found m, false)
or_fallback missing later = later
or_fallback invalid later = (invalid, false)

module _ {R M : Type 0} (x : RawMarkets R M) where
  unfoldable pub same_condition : R → Text → Bool
  unfolding same_text
  same_condition raw condition = same_text (x.lower (x.condition_id raw)) (x.lower condition)

  unfoldable pub parsed : R → Found M
  parsed raw = elim (x.parse raw) [ none ↦ invalid | some m ↦ found m ]

  -- The loop of `get_gamma_market`.
  unfoldable pub get_gamma_market : Text → List R → Found M
  unfolding same_condition parsed
  get_gamma_market condition [] = missing
  get_gamma_market condition (raw ∷ rest) =
      let later = get_gamma_market condition rest in
      if same_condition raw condition then parsed raw else later

  -- A candidate of `get_gamma_market_by_token`, by what follows it.
  unfoldable pub token_candidate : Text → Option M → Found M → Found M
  unfolding same_text
  token_candidate token none later = invalid
  token_candidate token (some m) later =
      if any (same_text token) (x.token_ids m) then found m else later

  unfoldable pub get_gamma_market_by_token : Text → Text → List R → Found M
  unfolding same_condition token_candidate
  get_gamma_market_by_token token condition [] = missing
  get_gamma_market_by_token token condition (raw ∷ rest) =
      let later = get_gamma_market_by_token token condition rest in
      if same_condition raw condition then token_candidate token (x.parse raw) later else later

  -- The fallback of the lookup, by the first traded token.
  unfoldable pub by_token : Text → Option Text → (Text → List R) → Found M × Bool
  unfolding get_gamma_market_by_token with_hit
  by_token condition none answers = (missing, false)
  by_token condition (some token) answers =
      with_hit (get_gamma_market_by_token token condition (answers token))

  -- `_lookup_closed_gamma_market`, by the answer to the condition and the answers to a token.
  unfoldable pub lookup_closed_gamma_market :
      Text → Option Text → List R → (Text → List R) → Found M × Bool
  unfolding get_gamma_market by_token or_fallback
  lookup_closed_gamma_market condition token markets answers =
      or_fallback (get_gamma_market condition markets) (by_token condition token answers)
