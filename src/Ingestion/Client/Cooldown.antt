-- ===== src/Ingestion/Client/Cooldown.antt =====
-- The attempts of `_get` of backend/src/polycopy/ingestion/client.py, and the cooldown of Gamma.
use poly.Prelude.{
  ℕ, zero, suc, ◌+◌, ◌-◌, ◌*◌, ◌^◌, ◌≤◌, ◌<◌, ◌≡◌, refl, Bool, true, ◌&&◌, Option, none, some, ◌==◌,
  if◌then◌else◌, if_case, ltb, arith, ap, sym, ◌∙◌, ◌⊎◌, inl, inr,
}
use poly.Settlements.{second_micros}
use poly.Ingestion.Client.{
  Header, seconds, date, unreadable, retry_after_seconds, Reply, response, transport_error, Answer,
  cooling, rate_limited, Client, Attempt, max_retries, answer_of, backoff_after, after_attempt,
  attempts, get,
}

-- The delay of a 429 is from one second to five minutes.
retry_after_seconds_bounds :
    (h : Option Header)
    → (second_micros ≤ retry_after_seconds h) × (retry_after_seconds h ≤ 300 * second_micros)
unfolding retry_after_seconds
retry_after_seconds_bounds (some (seconds z)) = (omega arith, omega arith)
retry_after_seconds_bounds (some (date z)) = (omega arith, omega arith)
retry_after_seconds_bounds (some unreadable) = (omega arith, omega arith)
retry_after_seconds_bounds none = (omega arith, omega arith)

backoff_after_limited :
    (B : Type 0) (after until delay : ℕ)
    → backoff_after {B = B} (rate_limited delay) after until ≡ after + delay
unfolding backoff_after
backoff_after_limited B after until delay = refl

module _ {B : Type 0} where
  answer_of_limited :
      (gamma : Bool) (r : Reply B) (delay : ℕ)
      → answer_of gamma r ≡ some (rate_limited delay)
      → (second_micros ≤ delay) × (delay ≤ 300 * second_micros)
  unfolding answer_of
  answer_of_limited gamma transport_error delay h = absurd (grind arith)
  answer_of_limited gamma (response status header json) delay h =
      let (low, high) = retry_after_seconds_bounds header in (grind arith, grind arith)

  -- A cooldown that an attempt set, from its time on.
  abbrev pub IsLimited : (ℕ → Attempt B) → ℕ → ℕ → Type 0
  IsLimited net delay until =
      (second_micros ≤ delay)
      × (delay ≤ 300 * second_micros)
      × (n : ℕ) × (until ≡ (net n).after + delay)

  after_attempt_limited :
      (left n : ℕ) (o : Option (Answer B)) (again : Client → Answer B × Client) (after : ℕ)
      (c c' : Client) (delay : ℕ)
      → after_attempt left n o again after c ≡ (rate_limited delay, c')
      → (o ≡ some (rate_limited delay)) × (c'.gamma_backoff_until ≡ after + delay)
        ⊎ (d : Client) × (again d ≡ (rate_limited delay, c'))
  unfolding after_attempt
  after_attempt_limited left n none again after c c' delay h = inr (_, h)
  after_attempt_limited left n (some a) again after c c' delay h =
      let same : a ≡ rate_limited delay = grind arith in
      let set : backoff_after a after c.gamma_backoff_until ≡ c'.gamma_backoff_until =
        ap (λ (p : Answer B × Client). p.1.gamma_backoff_until) h in
      inl (
        ap some same,
        sym set
            ∙ ap (λ b. backoff_after b after c.gamma_backoff_until) same
            ∙ backoff_after_limited B after c.gamma_backoff_until delay,
      )

  attempts-IsLimited :
      (net : ℕ → Attempt B) (left n : ℕ) (c c' : Client) (delay : ℕ)
      → attempts true net left n c ≡ (rate_limited delay, c')
      → IsLimited net delay c'.gamma_backoff_until
  unfolding attempts
  attempts-IsLimited net zero n c c' delay = λ h. absurd (grind arith)
  attempts-IsLimited net (suc left) n c c' delay =
      let a = net n in
      if_case
        (λ (p : Answer B × Client).
          p ≡ (rate_limited delay, c') → IsLimited net delay c'.gamma_backoff_until)
        (ltb a.before c.gamma_backoff_until) _ _ (λ _ h. absurd (grind arith))
        (λ _ h.
          elim (after_attempt_limited left n (answer_of true a.reply)
            (attempts true net left (n + 1)) a.after c c' delay h) [
              | inl (limited, set) ↦
                  let (low, high) = answer_of_limited true a.reply delay limited in
                  (low, high, n, set)
              | inr (d, h') ↦ attempts-IsLimited net left (n + 1) d c' delay h'
            ])

  after_attempt_sent :
      (left n : ℕ) (o : Option (Answer B)) (again : Client → Answer B × Client) (after : ℕ)
      (c : Client)
      → ((d : Client) → (again d).1.sent ≤ d.sent + left)
      → (after_attempt left n o again after c).1.sent ≤ c.sent + suc left
  unfolding after_attempt
  after_attempt_sent left n none again after c h = omega (
    arith,
    h (record c { sent = c.sent + 1; slept = if left == 0 then c.slept else c.slept + 2 ^ n }),
  )
  after_attempt_sent left n (some a) again after c h = omega arith

  -- No more requests than the attempts that are left.
  attempts_sent :
      (gamma : Bool) (net : ℕ → Attempt B) (left n : ℕ) (c : Client)
      → (attempts gamma net left n c).1.sent ≤ c.sent + left
  unfolding attempts
  attempts_sent gamma net zero n c = omega arith
  attempts_sent gamma net (suc left) n c =
      let a = net n in
      if_case (λ (p : Answer B × Client). p.1.sent ≤ c.sent + suc left)
        (gamma && ltb a.before c.gamma_backoff_until) _ _ (λ _. omega arith)
        (λ _.
          after_attempt_sent left n (answer_of gamma a.reply) (attempts gamma net left (n + 1))
            a.after c (λ d. attempts_sent gamma net left (n + 1) d))

  -- While Gamma cools down a call sends nothing and keeps the cooldown.
  get_cooling :
      (net : ℕ → Attempt B) (c : Client)
      → (net 0).before < c.gamma_backoff_until
      → get true net c
        ≡ (cooling (c.gamma_backoff_until - (net 0).before), record c { sent = 0; slept = 0 })
  unfolding get attempts
  get_cooling net c low =
      let c' : Client = record c { sent = 0; slept = 0 } in
      if_case (λ p. p ≡ (cooling (c.gamma_backoff_until - (net 0).before), c'))
        (ltb (net 0).before c.gamma_backoff_until) _ _ (λ _. refl) (λ high. absurd (ground arith))

  -- Any call of `_get`, to Gamma or not, sends at most three requests. When Gamma answers a call with a
  -- 429, the cooldown is set to the time of an answer with a delay of one second to five minutes, and
  -- the next call to Gamma before the cooldown ends sends nothing and leaves the cooldown as it is.
  pub get_cooldown :
      (gamma : Bool) (any_net net net' : ℕ → Attempt B) (any_client c c' : Client) (delay : ℕ)
      → get true net c ≡ (rate_limited delay, c')
      → (net' 0).before < c'.gamma_backoff_until
      → ((get gamma any_net any_client).1.sent ≤ max_retries)
        × IsLimited net delay c'.gamma_backoff_until
        × (get true net' c' ≡ (
          cooling (c'.gamma_backoff_until - (net' 0).before),
          record c' { sent = 0; slept = 0 },
        ))
  unfolding get
  get_cooldown gamma any_net net net' any_client c c' delay h low =
      let fresh : Client = record c { sent = 0; slept = 0 } in
      let few =
        attempts_sent gamma any_net max_retries 0 (record any_client { sent = 0; slept = 0 }) in
      let (above, below, n, until) = attempts-IsLimited net max_retries 0 fresh c' delay h in
      (omega arith, (above, below, n, until), get_cooling net' c' low)
