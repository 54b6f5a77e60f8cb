-- ===== src/Ingestion/Client/Lookup.antt =====
-- The identity of the markets that backend/src/polycopy/ingestion/client.py takes from Gamma.
use poly.Prelude.{
  subst, Bool-cases, ◌≡◌, refl, ap, ◌⊎◌, inl, inr, Bool, true, false, Option, none, some, List, [],
  ◌∷◌, if_case, any, arith,
}
use mathlib.Core.Path.{ap₂}
use mathlib.Core.List.{Mem, mem-cons_self, mem-cons_of_mem}
use poly.Ingestion.Identity.{Text}
use poly.Ingestion.Client.{
  RawMarkets, Found, found, missing, invalid, same_text, same_condition, parsed, get_gamma_market,
  token_candidate, get_gamma_market_by_token, with_hit, or_fallback, by_token,
  lookup_closed_gamma_market,
}

same_text_equal : (a b : Text) → same_text a b ≡ true → a ≡ b
unfolding same_text
same_text_equal [] [] h = refl
same_text_equal [] (b ∷ bs) h = absurd (ground arith)
same_text_equal (c ∷ cs) [] h = absurd (ground arith)
same_text_equal (c ∷ cs) (b ∷ bs) h =
    let rest = same_text_equal cs bs (ground arith) in
    let first : c ≡ b = ground arith in ap₂ ◌∷◌ first rest

any-same_text : (token : Text) (ids : List Text) → any (same_text token) ids ≡ true → Mem token ids
any-same_text token [] h = absurd (ground arith)
any-same_text token (t ∷ ts) h = elim (Bool-cases (same_text token t)) [
  | inl same ↦ subst (λ u. Mem token (u ∷ ts)) (same_text_equal token t same) mem-cons_self
  | inr other ↦ mem-cons_of_mem t (any-same_text token ts (ground arith))
]

module _ {R M : Type 0} (x : RawMarkets R M) where
  -- A market that was parsed from an object with the condition, up to case.
  abbrev pub IsOfCondition : Text → M → R → Type 0
  IsOfCondition condition m raw =
      (x.lower (x.condition_id raw) ≡ x.lower condition) × (x.parse raw ≡ some m)

  parsed_found :
      (raw : R) (o : Option M) {m : M}
      → o ≡ x.parse raw
      → parsed x raw ≡ found m
      → x.parse raw ≡ some m
  unfolding parsed
  parsed_found raw none e h = absurd (grind arith)
  parsed_found raw (some a) e h = grind arith

  get_gamma_market_found :
      (condition : Text) (markets : List R) (m : M)
      → get_gamma_market x condition markets ≡ found m
      → (raw : R) × IsOfCondition condition m raw
  unfolding get_gamma_market same_condition
  get_gamma_market_found condition [] m = λ h. absurd (grind arith)
  get_gamma_market_found condition (raw ∷ rest) m =
      if_case (λ (o : Found M). o ≡ found m → (raw : R) × IsOfCondition condition m raw)
        (same_condition x raw condition) (parsed x raw) (get_gamma_market x condition rest)
        (λ same h. (
          raw,
          (
            same_text_equal (x.lower (x.condition_id raw)) (x.lower condition) same,
            parsed_found raw (x.parse raw) refl h,
          ),
        ))
        (λ _. get_gamma_market_found condition rest m)

  token_candidate_found :
      (token : Text) (o : Option M) (later : Found M) (m : M)
      → token_candidate x token o later ≡ found m
      → (o ≡ some m) × Mem token (x.token_ids m) ⊎ (later ≡ found m)
  unfolding token_candidate
  token_candidate_found token none later m = λ h. absurd (grind arith)
  token_candidate_found token (some a) later m =
      if_case
        (λ (r : Found M).
          r ≡ found m → (some a ≡ some m) × Mem token (x.token_ids m) ⊎ (later ≡ found m))
        (any (same_text token) (x.token_ids a)) (found a) later
        (λ listed h.
          let same : a ≡ m = grind arith in
          inl (
            ap some same,
            subst (λ b. Mem token (x.token_ids b)) same
                (any-same_text token (x.token_ids a) listed),
          ))
        (λ _ h. inr h)

  get_gamma_market_by_token_found :
      (token condition : Text) (markets : List R) (m : M)
      → get_gamma_market_by_token x token condition markets ≡ found m
      → (raw : R) × IsOfCondition condition m raw × Mem token (x.token_ids m)
  unfolding get_gamma_market_by_token same_condition
  get_gamma_market_by_token_found token condition [] m = λ h. absurd (grind arith)
  get_gamma_market_by_token_found token condition (raw ∷ rest) m =
      let later = get_gamma_market_by_token x token condition rest in
      if_case
        (λ (o : Found M).
          o ≡ found m → (raw : R) × IsOfCondition condition m raw × Mem token (x.token_ids m))
        (same_condition x raw condition) (token_candidate x token (x.parse raw) later) later
        (λ same h. elim (token_candidate_found token (x.parse raw) later m h) [
          | inl (whole, listed) ↦ (
            raw,
            (same_text_equal (x.lower (x.condition_id raw)) (x.lower condition) same, whole),
            listed,
          )
          | inr h' ↦ get_gamma_market_by_token_found token condition rest m h'
        ])
        (λ _. get_gamma_market_by_token_found token condition rest m)

  with_hit_found :
      (o : Found M) (m : M) (used : Bool)
      → with_hit o ≡ (found m, used)
      → (o ≡ found m) × (used ≡ true)
  unfolding with_hit
  with_hit_found (found a) m used h = (grind arith, grind arith)
  with_hit_found missing m used h = absurd (grind arith)
  with_hit_found invalid m used h = absurd (grind arith)

  by_token_found :
      (condition : Text) (token : Option Text) (answers : Text → List R) (m : M) (used : Bool)
      → by_token x condition token answers ≡ (found m, used)
      → (raw : R) × IsOfCondition condition m raw
        × (t : Text) × (token ≡ some t)
        × Mem t (x.token_ids m)
  unfolding by_token
  by_token_found condition none answers m used h = absurd (grind arith)
  by_token_found condition (some t) answers m used h =
      let (hit, _) =
        with_hit_found (get_gamma_market_by_token x t condition (answers t)) m used h in
      let (raw, of_condition, listed) =
        get_gamma_market_by_token_found t condition (answers t) m hit in
      (raw, of_condition, t, refl, listed)

  or_fallback_found :
      (o : Found M) (later : Found M × Bool) (m : M) (used : Bool)
      → or_fallback o later ≡ (found m, used)
      → (o ≡ found m) × (used ≡ false) ⊎ (later ≡ (found m, used))
  unfolding or_fallback
  or_fallback_found (found a) later m used h = inl (grind arith, grind arith)
  or_fallback_found missing later m used h = inr h
  or_fallback_found invalid later m used h = absurd (grind arith)

  -- The lookup of a market to settle, by its condition and then by its first traded token, never takes
  -- another market: what it finds was parsed from an object of the venue with the same condition, up to
  -- case, and the first traded token is one of its tokens, where the condition did not find it.
  pub lookup_closed_gamma_market_found :
      (condition : Text) (token : Option Text) (markets : List R) (answers : Text → List R) (m : M)
      (used : Bool)
      → lookup_closed_gamma_market x condition token markets answers ≡ (found m, used)
      → (raw : R) × IsOfCondition condition m raw
        × ((used ≡ false) ⊎ (t : Text) × (token ≡ some t) × Mem t (x.token_ids m))
  unfolding lookup_closed_gamma_market
  lookup_closed_gamma_market_found condition token markets answers m used h =
      elim (or_fallback_found (get_gamma_market x condition markets)
        (by_token x condition token answers) m used h) [
          | inl (hit, unused) ↦
              let (raw, of_condition) = get_gamma_market_found condition markets m hit in
              (raw, of_condition, inl unused)
          | inr h' ↦
              let (raw, of_condition, t, traded, listed) =
                by_token_found condition token answers m used h' in
              (raw, of_condition, inr (t, traded, listed))
        ]
