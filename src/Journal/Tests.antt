-- ===== src/Journal/Tests.antt =====
-- Witnesses and runs of backend/src/polycopy/_shadow_protocol/bounded_journal.py. The test codec writes a
-- number as a text of one byte.
use poly.Prelude.{ℕ, ◌≡◌, refl, true, Option, none, some, List, [], ◌∷◌, ◌++◌, negsuc}
use poly.Journal.{Codec, item, select, upsert, delete}
use poly.Journal.Map.{
  Write, put, drop, getitem, contains, run_writes, run_writes_refines, IsSorted, setitem, get,
  items, read,
}
use poly.Journal.Offsets.{append_frames, get_frame, parse_frame}
use poly.Journal.Frames.{concat, get_frame-append_frames}

abbrev first_byte : List ℕ → Option ℕ
first_byte [] = none
first_byte (b ∷ bs) = some b

abbrev test_codec : Codec ℕ (List ℕ)
test_codec = record { dumps = λ v. v ∷ []; loads = first_byte }

abbrev test_writes : List (Write ℕ)
test_writes = put 5 50 ∷ put 3 30 ∷ put 5 51 ∷ drop 3 ∷ put 4 40 ∷ []

run_writes_refines_example :
    (getitem test_codec 5 (run_writes test_codec test_writes []) ≡ item 51)
    × (contains 5 (run_writes test_codec test_writes []) ≡ true)
    × IsSorted (run_writes test_codec test_writes [])
run_writes_refines_example = run_writes_refines test_codec test_writes 5 (λ v. refl)

writes_in_order :
    (items test_codec (run_writes test_codec test_writes []) ≡ some ((4, 40) ∷ (5, 51) ∷ []))
    × (get test_codec 3 7 (run_writes test_codec test_writes []) ≡ some 7)
unfolding items run_writes setitem upsert delete get getitem select read
writes_in_order = (refl, refl)

-- Two frames, each with a newline, and the start of a third.
abbrev test_frames : List (List ℕ)
test_frames = (65 ∷ 10 ∷ []) ∷ (66 ∷ 67 ∷ 10 ∷ []) ∷ []

get_frame-append_frames_example :
    get_frame first_byte (concat test_frames ++ (68 ∷ [])) (append_frames test_frames []) (negsuc 0)
    ≡ item 66
unfolding parse_frame
get_frame-append_frames_example =
    get_frame-append_frames first_byte test_frames (68 ∷ []) (negsuc 0)
