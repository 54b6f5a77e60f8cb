-- ===== src/Journal/Frames.antt =====
-- The offsets that `append` of backend/src/polycopy/_shadow_protocol/bounded_journal.py makes of frames,
-- and what they read back.
use mathlib.Core.Path.{ap₂}
use mathlib.Core.List.{append_assoc, append-nil}
use poly.Prelude.{
  ℕ, zero, suc, ◌+◌, ◌-◌, ◌≡◌, refl, sym, ap, ◌∙◌, max, Bool, true, false, Option, none, some, List,
  [], ◌∷◌, ◌++◌, ◌==◌, ==_iff, if◌then◌else◌, leb, length, length-append, take, arith, ℤ, pos,
  negsuc,
}
use poly.Journal.{not_found, row_of}
use poly.Journal.Offsets.{
  Offset, drop, last_row, row_at, max_row, next_row, append_frame, append_frames, parse_frame,
  read_row, read_index, get_frame, nth_frame, frame_of,
}

abbrev pub concat : List (List ℕ) → List ℕ
concat [] = []
concat (f ∷ fs) = f ++ concat fs

abbrev offset : ℕ → ℕ → ℕ → Offset
offset s p n = record { seq = s; position = p; length = n }

-- The rows of frames, from a number and a position on.
abbrev rows_from : ℕ → ℕ → List (List ℕ) → List Offset
rows_from s p [] = []
rows_from s p (f ∷ fs) = offset s p (length f) ∷ rows_from (s + 1) (p + length f) fs

next_row-rows_from :
    (s p : ℕ) (f : List ℕ) (fs : List (List ℕ)) (n : ℕ)
    → next_row (last_row (rows_from s p (f ∷ fs))) n
      ≡ offset (s + length fs + 1) (p + length f + length (concat fs)) n
unfolding last_row next_row
next_row-rows_from s p f [] n = ap₂ (λ a b. offset a b n) (omega arith) (omega arith)
next_row-rows_from s p f (g ∷ gs) n =
    next_row-rows_from (s + 1) (p + length f) g gs n
    ∙ ap₂ (λ a b. offset a b n) (omega arith) (omega (arith, length-append g (concat gs)))

next_row-first :
    (fs : List (List ℕ)) (n : ℕ)
    → next_row (last_row (rows_from 1 0 fs)) n ≡ offset (1 + length fs) (0 + length (concat fs)) n
unfolding last_row next_row
next_row-first [] n = refl
next_row-first (f ∷ fs) n =
    next_row-rows_from 1 0 f fs n
    ∙ ap₂ (λ a b. offset a b n) (omega arith) (omega (arith, length-append f (concat fs)))

rows_from-snoc :
    (s p : ℕ) (fs : List (List ℕ)) (f : List ℕ)
    → rows_from s p (fs ++ (f ∷ []))
      ≡ rows_from s p fs ++ (offset (s + length fs) (p + length (concat fs)) (length f) ∷ [])
rows_from-snoc s p [] f = ap₂ (λ a b. offset a b (length f) ∷ []) (omega arith) (omega arith)
rows_from-snoc s p (g ∷ gs) f =
    ap (λ rows. offset s p (length g) ∷ rows)
      (rows_from-snoc (s + 1) (p + length g) gs f
        ∙ ap₂ (λ a b. rows_from (s + 1) (p + length g) gs ++ (offset a b (length f) ∷ []))
            (omega arith) (omega (arith, length-append g (concat gs))))

append_frames-rows_from :
    (gs fs : List (List ℕ)) → append_frames gs (rows_from 1 0 fs) ≡ rows_from 1 0 (fs ++ gs)
unfolding append_frames append_frame
append_frames-rows_from [] fs = ap (rows_from 1 0) (sym (append-nil fs))
append_frames-rows_from (g ∷ gs) fs =
    ap (append_frames gs) (
      ap (λ r. rows_from 1 0 fs ++ (r ∷ [])) (next_row-first fs (length g))
      ∙ sym (rows_from-snoc 1 0 fs g))
    ∙ append_frames-rows_from gs (fs ++ (g ∷ []))
    ∙ ap (rows_from 1 0) (append_assoc fs (g ∷ []) gs)

max_row-rows_from :
    (m p : ℕ) (fs : List (List ℕ)) → max m (max_row (rows_from (m + 1) p fs)) ≡ m + length fs
unfolding max_row
max_row-rows_from m p [] = omega arith
max_row-rows_from m p (f ∷ fs) = omega (arith, max_row-rows_from (m + 1) (p + length f) fs)

take-length : (xs ys : List ℕ) → take (length xs) (xs ++ ys) ≡ xs
take-length [] ys = refl
take-length (x ∷ xs) ys = ap (λ zs. x ∷ zs) (take-length xs ys)

drop-length : (xs ys : List ℕ) → drop (length xs) (xs ++ ys) ≡ ys
unfolding drop
drop-length [] ys = refl
drop-length (x ∷ xs) ys = drop-length xs ys

module _ {V : Type 0} (loads : List ℕ → Option V) where
  read_row-rows_from :
      (s : ℕ) (before after : List ℕ) (fs : List (List ℕ)) (i : ℕ)
      → read_row loads
          (before ++ (concat fs ++ after))
          (row_at (s + i) (rows_from s (length before) fs))
        ≡ nth_frame loads fs i
  unfolding read_row row_at
  read_row-rows_from s before after [] i = refl
  read_row-rows_from s before after (f ∷ fs) zero = rw ((==_iff s (s + 0)).1 (omega arith)) (
      ap (parse_frame loads (length f)) (
        ap (take (length f)) (drop-length before ((f ++ concat fs) ++ after))
        ∙ ap (take (length f)) (append_assoc f (concat fs) after)
        ∙ take-length f (concat fs ++ after)))
  read_row-rows_from s before after (f ∷ fs) (suc i) =
      let other : (s == (s + suc i)) ≡ false = ground arith in
      rw other (
        ap₂ (read_row loads)
          (ap (λ bytes. before ++ bytes) (append_assoc f (concat fs) after)
            ∙ sym (append_assoc before f (concat fs ++ after)))
          (ap₂ (λ k p. row_at k (rows_from (s + 1) p fs)) (omega arith)
            (sym (length-append before f)))
        ∙ read_row-rows_from (s + 1) (before ++ f) after fs i)

  -- The index of a frame, and that of its row.
  read_index-frame_of :
      (fs : List (List ℕ)) (after : List ℕ) (index : ℤ)
      → read_index loads (concat fs ++ after) (rows_from 1 0 fs) (row_of (length fs) index)
        ≡ frame_of loads fs index
  unfolding read_index row_of
  read_index-frame_of fs after (pos i) =
      ap (λ k. read_row loads (concat fs ++ after) (row_at k (rows_from 1 0 fs))) (omega arith)
      ∙ read_row-rows_from 1 [] after fs i
  read_index-frame_of fs after (negsuc i) = chosen (leb (i + 1) (length fs)) (λ low. ground arith)
    where
      chosen :
          (b : Bool)
          → (b ≡ true → length fs - i ≡ 1 + (length fs - (i + 1)))
          → read_index loads
              (concat fs ++ after)
              (rows_from 1 0 fs)
              (if b then some (length fs - i) else none)
            ≡ (if b then nth_frame loads fs (length fs - (i + 1)) else not_found)
      chosen false h = refl
      chosen true h =
          ap (λ k. read_row loads (concat fs ++ after) (row_at k (rows_from 1 0 fs))) (h refl)
          ∙ read_row-rows_from 1 [] after fs (length fs - (i + 1))

  -- A journal gives its frames back: with the offsets that appending them made, an index, from the start
  -- or below 0 from the end, reads the frame at that place of the list of frames, whatever was written
  -- behind them since, and an index out of range is not found.
  pub get_frame-append_frames :
      (fs : List (List ℕ)) (after : List ℕ) (index : ℤ)
      → get_frame loads (concat fs ++ after) (append_frames fs []) index ≡ frame_of loads fs index
  unfolding get_frame
  get_frame-append_frames fs after index =
      let count : max_row (rows_from 1 0 fs) ≡ length fs =
        omega (arith, max_row-rows_from 0 0 fs) in
      ap (λ rows. read_index loads (concat fs ++ after) rows (row_of (max_row rows) index))
        (append_frames-rows_from fs [])
      ∙ ap (λ n. read_index loads (concat fs ++ after) (rows_from 1 0 fs) (row_of n index)) count
      ∙ read_index-frame_of fs after index
