-- ===== src/Prelude/Dicts.antt =====
-- A Python dict whose keys are only compared, as an association list in insertion order.
use Prim.Native.Nat.{ℕ}
use mathlib.Core.Path.{◌≡◌, refl}
use mathlib.Core.Bool.{Bool}
use mathlib.Core.Option.{Option, none, some}
use mathlib.Core.List.{List, [], ◌∷◌}
use native.Mathlib.Omega.{arith}
use poly.Prelude.Tests.{◌==◌, if◌then◌else◌}

abbrev pub Dict {ℓ} : Type ℓ → Type ℓ
Dict V = List (ℕ × V)

module _ {ℓ} {V : Type ℓ} where
  -- `d.get(k)`
  abbrev pub lookup : ℕ → Dict V → Option V
  lookup k [] = none
  lookup k (e ∷ d) = if e.0 == k then some e.1 else lookup k d

  -- `d[k] = v`
  abbrev pub insert : ℕ → V → Dict V → Dict V
  insert k v [] = (k, v) ∷ []
  insert k v (e ∷ d) = if e.0 == k then (k, v) ∷ d else e ∷ insert k v d

  pub lookup-insert :
      (k j : ℕ) (v : V) (d : Dict V)
      → lookup j (insert k v d) ≡ (if k == j then some v else lookup j d)
  lookup-insert k j v [] = refl
  lookup-insert k j v (e ∷ d) = ground (arith, lookup-insert k j v d)

  -- The keys that a test keeps.
  abbrev pub retain : (ℕ → Bool) → Dict V → Dict V
  retain p [] = []
  retain p (e ∷ d) = if p e.0 then e ∷ retain p d else retain p d

  pub lookup-retain :
      (p : ℕ → Bool) (k : ℕ) (d : Dict V)
      → lookup k (retain p d) ≡ (if p k then lookup k d else none)
  lookup-retain p k [] = ground arith
  lookup-retain p k (e ∷ d) = ground (arith, lookup-retain p k d)

  -- `d.setdefault(k, v)`: a new key goes to the end, and a known one keeps its value.
  abbrev pub setdefault : ℕ → V → Dict V → Dict V
  setdefault k v [] = (k, v) ∷ []
  setdefault k v (e ∷ d) = if e.0 == k then e ∷ d else e ∷ setdefault k v d
