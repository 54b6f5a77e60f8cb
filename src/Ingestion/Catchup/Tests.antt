-- ===== src/Ingestion/Catchup/Tests.antt =====
-- A witness of `ingest_approved_wallet` of backend/src/polycopy/ingestion/catchup.py: the anchor 48 is not
-- in the tail, and the first older page has it.
use poly.Prelude.{ℕ, zero, suc, ◌≡◌, refl, true, Option, none, some, [], ◌∷◌}
use poly.Ingestion.Identity.{RawTrade}
use poly.Ingestion.Tests.{test_row, text_code}
use poly.Ingestion.Catchup.{Feed}
use poly.Ingestion.Catchup.Step.{start_anchor, ingest_approved_wallet}
use poly.Ingestion.Catchup.Continuity.{IsKept, pages}
use poly.Ingestion.Catchup.Anchor.{ingest_approved_wallet-IsKept}

abbrev row_time : RawTrade → Option ℕ
row_time raw = elim raw.timestamp [ none ↦ some 0 | some t ↦ some (text_code t) ]

-- The world is the number of the requests so far.
abbrev test_feed : Feed ℕ
test_feed = record {
  get_trades = λ limit offset end calls. (
    some (elim calls [ zero ↦ test_row 50 ∷ [] | suc n ↦ test_row 49 ∷ test_row 48 ∷ [] ]),
    suc calls,
  );
  ingest = λ rows calls. ((1, 0), calls);
  approved = λ calls. true;
  newest_key = λ calls. some 48;
  clock = λ calls. 60;
  canonical_key = row_time;
  stamp = row_time;
  number_stamp = row_time;
}

ingest_approved_wallet-IsKept_example :
    IsKept 48 4 (ingest_approved_wallet test_feed 2 3 none 0).1.trace
unfolding start_anchor
ingest_approved_wallet-IsKept_example = ingest_approved_wallet-IsKept test_feed 48 2 3 none 0 refl

two_pages : pages (ingest_approved_wallet test_feed 2 3 none 0).1.trace ≡ 2
unfolding ingest_approved_wallet
two_pages = refl
