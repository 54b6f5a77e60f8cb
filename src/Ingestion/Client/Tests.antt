-- ===== src/Ingestion/Client/Tests.antt =====
-- Witnesses of backend/src/polycopy/ingestion/client.py: a 429 of Gamma in the second attempt, and a
-- market that its token finds.
use mathlib.Core.List.{Mem}
use poly.Prelude.{
  ℕ, ◌≤◌, ◌≡◌, refl, ◌⊎◌, ◌==◌, if◌then◌else◌, true, false, Option, none, some, [], ◌∷◌, ◌+◌, ◌*◌,
  arith,
}
use poly.Ingestion.Identity.{Text}
use poly.Ingestion.Client.{
  transport_error, response, cooling, Client, Attempt, max_retries, get, RawMarkets,
  lookup_closed_gamma_market,
}
use poly.Ingestion.Client.Cooldown.{IsLimited, get_cooldown}
use poly.Ingestion.Client.Lookup.{IsOfCondition, lookup_closed_gamma_market_found}

abbrev test_net : ℕ → Attempt ℕ
test_net n = record {
  before = 10 * n;
  reply = if n == 0 then transport_error else response 429 none none;
  after = 10 * n + 5;
}

abbrev fresh_client : Client
fresh_client = record { gamma_backoff_until = 0; sent = 0; slept = 0 }

abbrev cool_client : Client
cool_client = record { gamma_backoff_until = 60_000_015; sent = 2; slept = 1 }

get_cooldown_example :
    ((get false test_net fresh_client).1.sent ≤ max_retries)
    × IsLimited test_net 60_000_000 60_000_015
    × (get true test_net cool_client
        ≡ (cooling 60_000_015, record { gamma_backoff_until = 60_000_015; sent = 0; slept = 0 }))
unfolding get
get_cooldown_example =
    get_cooldown false test_net test_net test_net fresh_client fresh_client cool_client 60_000_000
      refl (omega arith)

-- A raw market is its number, which is its condition and its only token.
abbrev test_markets : RawMarkets ℕ ℕ
test_markets = record {
  lower = λ t. t;
  condition_id = λ raw. raw ∷ [];
  parse = λ raw. some raw;
  token_ids = λ m. (m ∷ []) ∷ [];
}

lookup_closed_gamma_market_found_example :
    (raw : ℕ) × IsOfCondition test_markets (7 ∷ []) 7 raw
    × ((◌≡◌ true false)
        ⊎ (t : Text) × (◌≡◌ {A = Option Text} (some (7 ∷ [])) (some t)) × Mem t ((7 ∷ []) ∷ []))
unfolding lookup_closed_gamma_market
lookup_closed_gamma_market_found_example =
    lookup_closed_gamma_market_found test_markets (7 ∷ []) (some (7 ∷ [])) (8 ∷ [])
      (λ token. 8 ∷ 7 ∷ []) 7 true refl
