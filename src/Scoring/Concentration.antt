-- ===== src/Scoring/Concentration.antt =====
-- When the profit of a wallet is concentrated on one market, in
-- backend/src/polycopy/scoring/score.py.
use native.Mathlib.Nat.{mul-le-mul, le_refl}
use poly.Prelude.{
  ap, ◌∙◌, ℕ, ◌*◌, max, ◌≤◌, ◌<◌, ◌≡◌, ◌↔◌, false, List, [], ◌∷◌, arith, All, ltb, ◌==◌, ℤ,
  Bool-cases, inl, inr,
}
use poly.Decimals.{Decimals, IsRounded}
use poly.Scoring.{positives, largest, total, concentration, is_concentrated}

-- The wallet has a profit, and the gain of no market is more than half of the gains of all the markets
-- with one, by the correctly rounded quotient.
abbrev pub IsSpread : Decimals → List ℤ → Type 0
IsSpread d pnl =
    let gains = positives pnl in
    (0 < total gains) × All (λ gain. 2 * d.quotient (gain * d.one) (total gains) ≤ d.one) gains

module _ (d : Decimals) (laws : IsRounded d) (sum : ℕ) where
  abbrev Half : ℕ → Type 0
  Half gain = 2 * d.quotient (gain * d.one) sum ≤ d.one

  Half-mono : (a b : ℕ) → a ≤ b → Half b → Half a
  Half-mono a b le h =
      omega (arith, laws.quotient_mono (a * d.one) (b * d.one) sum (mul-le-mul le (le_refl d.one)))

  Half-largest : (gains : List ℕ) → Half (largest gains) → All Half gains
  unfolding largest
  Half-largest [] h = tt
  Half-largest (n ∷ ns) h = (
    Half-mono n (max n (largest ns)) (omega arith) h,
    Half-largest ns (Half-mono (largest ns) (max n (largest ns)) (omega arith) h),
  )

  Half-zero : 0 < sum → Half 0
  Half-zero h =
      let nothing : 0 * d.one ≡ 0 * sum = omega arith in
      let no_share : d.quotient (0 * d.one) sum ≡ 0 =
        ap (λ n. d.quotient n sum) nothing ∙ laws.quotient_exact 0 sum h in
      omega (arith, no_share)

  largest-Half : (gains : List ℕ) → 0 < sum → All Half gains → Half (largest gains)
  unfolding largest
  largest-Half [] h all = Half-zero h
  largest-Half (n ∷ ns) h all = elim (Bool-cases (ltb n (largest ns))) [
    | inl less ↦
        Half-mono (max n (largest ns)) (largest ns) (ground arith) (largest-Half ns h all.1)
    | inr more ↦ Half-mono (max n (largest ns)) n (ground arith) all.0
  ]

module _ (d : Decimals) (laws : IsRounded d) where
  pub is_concentrated-IsSpread : (pnl : List ℤ) → (is_concentrated d pnl ≡ false) ↔ IsSpread d pnl
  unfolding is_concentrated concentration
  is_concentrated-IsSpread pnl =
      let gains = positives pnl in
      let one_pos = laws.one_pos in
      elim (Bool-cases (total gains == 0)) [
        | inl none_gained ↦
            rw none_gained (λ e. absurd (ground arith), λ spread. absurd (ground arith))
        | inr gained ↦
            let some_gained : 0 < total gains = ground arith in
            rw gained (
              λ e. (some_gained, Half-largest d laws (total gains) gains (ground arith)),
              λ spread.
                  let half = largest-Half d laws (total gains) gains some_gained spread.1 in
                  ground arith,
            )
      ]
