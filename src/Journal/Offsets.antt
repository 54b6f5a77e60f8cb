-- ===== src/Journal/Offsets.antt =====
-- `JournalSequence` of backend/src/polycopy/_shadow_protocol/bounded_journal.py reads back the frames of
-- its file.
use poly.Prelude.{
  ℕ, zero, suc, ◌+◌, ◌-◌, max, Bool, false, ◌&&◌, Option, none, some, List, [], ◌∷◌, ◌++◌, ◌==◌,
  if◌then◌else◌, leb, length, take, ℤ, pos, negsuc,
}
use poly.Journal.{Item, item, not_found, broken, row_of}

-- A row of `journal_offsets`.
pub record Offset : Type 0 where
  pub seq : ℕ
  pub position : ℕ
  pub length : ℕ

-- "\n"
abbrev newline : ℕ
newline = 10

unfoldable pub drop : ℕ → List ℕ → List ℕ
drop zero xs = xs
drop (suc n) [] = []
drop (suc n) (x ∷ xs) = drop n xs

-- `data.endswith(b'\n')`
unfoldable pub ends_line : List ℕ → Bool
ends_line [] = false
ends_line (b ∷ []) = b == newline
ends_line (b ∷ c ∷ bs) = ends_line (c ∷ bs)

-- `ORDER BY seq DESC LIMIT 1`, where the rows stand in the order of their numbers.
unfoldable pub last_row : List Offset → Option Offset
last_row [] = none
last_row (r ∷ []) = some r
last_row (r ∷ s ∷ rest) = last_row (s ∷ rest)

unfoldable pub row_at : ℕ → List Offset → Option Offset
row_at seq [] = none
row_at seq (r ∷ rest) = if r.seq == seq then some r else row_at seq rest

-- `__len__`
unfoldable pub max_row : List Offset → ℕ
max_row [] = 0
max_row (r ∷ rest) = max r.seq (max_row rest)

-- The row behind the last one, for a frame of a number of bytes.
unfoldable pub next_row : Option Offset → ℕ → Offset
next_row none n = record { seq = 1; position = 0; length = n }
next_row (some r) n = record { seq = r.seq + 1; position = r.position + r.length; length = n }

-- `append`, by the frame that is in the file.
unfoldable pub append_frame : List ℕ → List Offset → List Offset
unfolding last_row next_row
append_frame frame rows = rows ++ (next_row (last_row rows) (length frame) ∷ [])

unfoldable pub append_frames : List (List ℕ) → List Offset → List Offset
unfolding append_frame
append_frames [] rows = rows
append_frames (f ∷ fs) rows = append_frames fs (append_frame f rows)

module _ {V : Type 0} (loads : List ℕ → Option V) where
  -- A frame that was read; a torn one is a ValueError.
  unfoldable pub parse_frame : ℕ → List ℕ → Item V
  unfolding ends_line
  parse_frame n bytes =
      if length bytes == n && ends_line bytes
      then elim (loads bytes) [ none ↦ broken | some v ↦ item v ]
      else broken

  unfoldable pub read_row : List ℕ → Option Offset → Item V
  unfolding parse_frame drop
  read_row file none = not_found
  read_row file (some r) = parse_frame r.length (take r.length (drop r.position file))

  unfoldable pub read_index : List ℕ → List Offset → Option ℕ → Item V
  unfolding read_row row_at
  read_index file rows none = not_found
  read_index file rows (some seq) = read_row file (row_at seq rows)

  -- `__getitem__`
  unfoldable pub get_frame : List ℕ → List Offset → ℤ → Item V
  unfolding read_index row_of max_row
  get_frame file rows index = read_index file rows (row_of (max_row rows) index)

  -- The specification: a list of frames, where an index below 0 counts from the end.
  abbrev pub nth_frame : List (List ℕ) → ℕ → Item V
  nth_frame [] i = not_found
  nth_frame (f ∷ fs) zero = parse_frame (length f) f
  nth_frame (f ∷ fs) (suc i) = nth_frame fs i

  abbrev pub frame_of : List (List ℕ) → ℤ → Item V
  frame_of fs (pos i) = nth_frame fs i
  frame_of fs (negsuc i) =
      if leb (i + 1) (length fs) then nth_frame fs (length fs - (i + 1)) else not_found
