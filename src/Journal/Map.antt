-- ===== src/Journal/Map.antt =====
-- `DiskMap` of backend/src/polycopy/_shadow_protocol/bounded_journal.py is a finite map.
use poly.Prelude.{
  ℕ, ◌<◌, ◌≡◌, refl, ap, ◌∙◌, subst, Bool, true, false, Option, none, some, List, [], ◌∷◌, ◌==◌,
  if◌then◌else◌, if_case, ==_iff, Bool-cases, inl, inr, ltb, All, arith, is_some,
}
use poly.Journal.{Codec, Table, select, upsert, delete, Item, item, not_found, broken}

-- The outcome of a row that was selected.
unfoldable pub read : {V B : Type 0} → Codec V B → Option B → Item V
read x none = not_found
read x (some body) = elim (x.loads body) [ none ↦ broken | some v ↦ item v ]

module _ {V B : Type 0} (x : Codec V B) where
  -- `__getitem__`
  unfoldable pub getitem : ℕ → Table B → Item V
  unfolding select read
  getitem key t = read x (select key t)

  -- `__setitem__`
  unfoldable pub setitem : ℕ → V → Table B → Table B
  unfolding upsert
  setitem key v t = upsert key (x.dumps v) t

  -- `get`, whose default stands only for a missing key; none is an error of the row.
  unfoldable pub get : ℕ → V → Table B → Option V
  unfolding getitem
  get key default t = elim (getitem key t) [
    | item v ↦ some v
    | not_found ↦ some default
    | broken ↦ none
  ]

  -- `items`, up to a row that cannot be read.
  unfoldable pub items : Table B → Option (List (ℕ × V))
  items [] = some []
  items (row ∷ rest) = elim (x.loads row.1) [
    | none ↦ none
    | some v ↦ elim (items rest) [ none ↦ none | some vs ↦ some ((row.0, v) ∷ vs) ]
  ]

-- `__contains__`
unfoldable pub contains : {B : Type 0} → ℕ → Table B → Bool
unfolding select
contains key t = is_some (select key t)

-- What a client writes.
pub data Write (V : Type 0) : Type 0 where
  put : ℕ → V → Write V
  drop : ℕ → Write V

-- The writes on the table, and on a map from keys to values, the specification.
unfoldable pub run_writes : {V B : Type 0} → Codec V B → List (Write V) → Table B → Table B
unfolding setitem delete
run_writes x [] t = t
run_writes x (put key v ∷ rest) t = run_writes x rest (setitem x key v t)
run_writes x (drop key ∷ rest) t = run_writes x rest (delete key t)

abbrev pub mapped : {V : Type 0} → List (Write V) → (ℕ → Option V) → ℕ → Option V
mapped [] f k = f k
mapped (put key v ∷ rest) f k = mapped rest (λ j. if j == key then some v else f j) k
mapped (drop key ∷ rest) f k = mapped rest (λ j. if j == key then none else f j) k

module _ {B : Type 0} where
  -- Rows in the order of their keys, with no key twice.
  abbrev pub IsAbove : ℕ → Table B → Type 0
  IsAbove key = All (λ (row : ℕ × B). key < row.0)

  abbrev pub IsSorted : Table B → Type 0
  IsSorted [] = Unit
  IsSorted (row ∷ rest) = IsAbove row.0 rest × IsSorted rest

  IsAbove-trans : (j k : ℕ) (t : Table B) → j < k → IsAbove k t → IsAbove j t
  IsAbove-trans j k [] h a = tt
  IsAbove-trans j k (row ∷ rest) h a = (omega (arith, a.0), IsAbove-trans j k rest h a.1)

  upsert-IsAbove : (j k : ℕ) (b : B) (t : Table B) → j < k → IsAbove j t → IsAbove j (upsert k b t)
  unfolding upsert
  upsert-IsAbove j k b [] h a = (h, tt)
  upsert-IsAbove j k b (row ∷ rest) h a =
      if_case (IsAbove j) (row.0 == k) _ _ (λ _. (h, a.1))
        (λ _.
          if_case (IsAbove j) (ltb k row.0) _ _ (λ _. (h, a))
            (λ _. (a.0, upsert-IsAbove j k b rest h a.1)))

  upsert-IsSorted : (k : ℕ) (b : B) (t : Table B) → IsSorted t → IsSorted (upsert k b t)
  unfolding upsert
  upsert-IsSorted k b [] s = (tt, tt)
  upsert-IsSorted k b (row ∷ rest) s =
      if_case IsSorted (row.0 == k) _ _
        (λ e. (subst (λ j. IsAbove j rest) ((==_iff row.0 k).0 e) s.0, s.1))
        (λ other.
          if_case IsSorted (ltb k row.0) _ _
            (λ low. ((ground arith, IsAbove-trans k row.0 rest (ground arith) s.0), s))
            (λ high.
              (upsert-IsAbove row.0 k b rest (ground arith) s.0, upsert-IsSorted k b rest s.1)))

  delete-IsAbove : (j k : ℕ) (t : Table B) → IsAbove j t → IsAbove j (delete k t)
  unfolding delete
  delete-IsAbove j k [] a = tt
  delete-IsAbove j k (row ∷ rest) a =
      if_case (IsAbove j) (row.0 == k) _ _ (λ _. a.1) (λ _. (a.0, delete-IsAbove j k rest a.1))

  delete-IsSorted : (k : ℕ) (t : Table B) → IsSorted t → IsSorted (delete k t)
  unfolding delete
  delete-IsSorted k [] s = tt
  delete-IsSorted k (row ∷ rest) s =
      if_case IsSorted (row.0 == k) _ _ (λ _. s.1)
        (λ _. (delete-IsAbove row.0 k rest s.0, delete-IsSorted k rest s.1))

  select-upsert :
      (j k : ℕ) (b : B) (t : Table B)
      → select j (upsert k b t) ≡ (if j == k then some b else select j t)
  unfolding select upsert
  select-upsert j k b [] = ground arith
  select-upsert j k b (row ∷ rest) = ground (arith, select-upsert j k b rest)

  select-IsAbove : (j k : ℕ) (t : Table B) → IsAbove k t → j ≡ k → select j t ≡ none
  unfolding select
  select-IsAbove j k [] a h = refl
  select-IsAbove j k (row ∷ rest) a h = ground (arith, a.0, select-IsAbove j k rest a.1 h)

  select-delete :
      (j k : ℕ) (t : Table B)
      → IsSorted t
      → select j (delete k t) ≡ (if j == k then none else select j t)
  unfolding select delete
  select-delete j k [] s = ground arith
  select-delete j k (row ∷ rest) s =
      if_case
        (λ t.
          select j t ≡ (if j == k then none else if row.0 == j then some row.1 else select j rest))
        (row.0 == k) rest (row ∷ delete k rest)
        (λ same. elim (Bool-cases (j == k)) [
          | inl here ↦ let gone = select-IsAbove j row.0 rest s.0 (ground arith) in ground arith
          | inr other ↦ ground arith
        ])
        (λ other. ground (arith, select-delete j k rest s.1))

-- The row that stands for a value.
abbrev row_for : {V B : Type 0} → Codec V B → Option V → Option B
row_for x none = none
row_for x (some v) = some (x.dumps v)

abbrev pub item_for : {V : Type 0} → Option V → Item V
item_for none = not_found
item_for (some v) = item v

module _ {V B : Type 0} (x : Codec V B) where
  run_writes-mapped :
      (ws : List (Write V)) (t : Table B) (f : ℕ → Option V)
      → IsSorted t
      → ((k : ℕ) → select k t ≡ row_for x (f k))
      → IsSorted (run_writes x ws t)
        × ((k : ℕ) → select k (run_writes x ws t) ≡ row_for x (mapped ws f k))
  unfolding run_writes setitem
  run_writes-mapped [] t f s same = (s, same)
  run_writes-mapped (put key v ∷ rest) t f s same =
      run_writes-mapped rest (upsert key (x.dumps v) t) (λ j. if j == key then some v else f j)
        (upsert-IsSorted key (x.dumps v) t s)
        (λ k. select-upsert k key (x.dumps v) t ∙ chosen (k == key) k (some v))
    where
      chosen :
          (b : Bool) (k : ℕ) (o : Option V)
          → (if b then row_for x o else select k t) ≡ row_for x (if b then o else f k)
      chosen true k o = refl
      chosen false k o = same k
  run_writes-mapped (drop key ∷ rest) t f s same =
      run_writes-mapped rest (delete key t) (λ j. if j == key then none else f j)
        (delete-IsSorted key t s) (λ k. select-delete k key t s ∙ chosen (k == key) k)
    where
      chosen :
          (b : Bool) (k : ℕ)
          → (if b then none else select k t) ≡ row_for x (if b then none else f k)
      chosen true k = refl
      chosen false k = same k

  read-row_for :
      (o : Option V) → ((v : V) → x.loads (x.dumps v) ≡ some v) → read x (row_for x o) ≡ item_for o
  unfolding read
  read-row_for none law = refl
  read-row_for (some v) law = rw (law v, read) refl

  is_some-row_for : (o : Option V) → is_some (row_for x o) ≡ is_some o
  is_some-row_for none = refl
  is_some-row_for (some v) = refl

  -- A `DiskMap` that starts empty is the map that its writes describe: whatever was set and deleted, a
  -- key has the value that was set last and not deleted since, a key with none is not found and not
  -- contained, and the rows stand in the order of their keys with no key twice, if what `json.dumps`
  -- writes is read back.
  pub run_writes_refines :
      (ws : List (Write V)) (k : ℕ)
      → ((v : V) → x.loads (x.dumps v) ≡ some v)
      → (getitem x k (run_writes x ws []) ≡ item_for (mapped ws (λ _. none) k))
        × (contains k (run_writes x ws []) ≡ is_some (mapped ws (λ _. none) k))
        × IsSorted (run_writes x ws [])
  unfolding getitem contains select
  run_writes_refines ws k law =
      let (sorted, same) = run_writes-mapped ws [] (λ _. none) tt (λ _. refl) in
      (
        ap (read x) (same k) ∙ read-row_for (mapped ws (λ _. none) k) law,
        ap is_some (same k) ∙ is_some-row_for (mapped ws (λ _. none) k),
        sorted,
      )
