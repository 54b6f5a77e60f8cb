-- ===== src/Journal.antt =====
-- backend/src/polycopy/_shadow_protocol/bounded_journal.py: the indexes on disk. A table is the list of
-- its rows, and what is no row of it is not there. Keys are only compared and ordered, so they are
-- numbers; a value and the text that `json.dumps` makes of it are related by a codec, which is an
-- argument. An offset in the journal is a number of bytes; a file is the list of its bytes.
pub mod Map
pub mod Offsets
pub mod Frames
mod Tests
use poly.Prelude.{
  ℕ, suc, ◌+◌, ◌-◌, ◌≡◌, max, Bool, true, false, ◌&&◌, Option, none, some, List, [], ◌∷◌, ◌++◌,
  ◌==◌, if◌then◌else◌, ltb, leb, length, ℤ, pos, negsuc,
}

-- `json.dumps` and `json.loads`, which raises where it is none.
pub record Codec (V B : Type 0) : Type 0 where
  pub dumps : V → B
  pub loads : B → Option V

-- The row of a table, by its primary key.
abbrev pub Table : Type 0 → Type 0
Table B = List (ℕ × B)

module _ {B : Type 0} where
  -- `SELECT body … WHERE id=?`
  unfoldable pub select : ℕ → Table B → Option B
  select key [] = none
  select key (row ∷ rest) = if row.0 == key then some row.1 else select key rest

  -- `INSERT … ON CONFLICT(id) DO UPDATE`, with the rows in the order of their keys.
  unfoldable pub upsert : ℕ → B → Table B → Table B
  upsert key body [] = (key, body) ∷ []
  upsert key body (row ∷ rest) =
      if row.0 == key
      then (key, body) ∷ rest
      else if ltb key row.0
      then (key, body) ∷ row ∷ rest
      else row ∷ upsert key body rest

  -- `DELETE … WHERE id=?`
  unfoldable pub delete : ℕ → Table B → Table B
  delete key [] = []
  delete key (row ∷ rest) = if row.0 == key then rest else row ∷ delete key rest

-- The outcome of a subscript; not_found is the KeyError or the IndexError, and broken an error of the
-- row.
pub data Item (V : Type 0) : Type 0 where
  item : V → Item V
  not_found broken : Item V

-- The row that an index from the start or the end selects, where none is an index before the start: the
-- keys count from 1.
unfoldable pub row_of : ℕ → ℤ → Option ℕ
row_of count (pos i) = some (i + 1)
row_of count (negsuc i) = if leb (i + 1) count then some (count - i) else none
