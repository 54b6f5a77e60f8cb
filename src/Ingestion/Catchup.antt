-- ===== src/Ingestion/Catchup.antt =====
-- `ingest_approved_wallet` of backend/src/polycopy/ingestion/catchup.py. The canonical keys of trades
-- are numbers and times are seconds; the addresses of the log are left out. Of the client and the
-- database the function sees `Feed`. The log entries and the pages stand in a trace, the latest first.
pub mod Step
pub mod Continuity
pub mod Anchor
mod Tests
use poly.Prelude.{
  ℕ, ◌-◌, min, max, Bool, true, false, ◌&&◌, not, Option, none, some, List, [], ◌∷◌, ◌==◌,
  if◌then◌else◌, leb, any, or_else,
}
use poly.Ingestion.Identity.{RawTrade}

-- `client.get_trades` by limit, offset and end, where none is an error, which nothing here catches;
-- `ingest_trade_rows`; the approval of the wallet, read again; the key of its newest stored trade; the
-- clock; `canonical_trade_id`, where none is an error; `int` of a timestamp, where a missing one is 0 and
-- none is an error; and a timestamp that is a number.
pub record Feed (W : Type 0) : Type 0 where
  pub get_trades : ℕ → ℕ → Option ℕ → W → Option (List RawTrade) × W
  pub ingest : List RawTrade → W → (ℕ × ℕ) × W
  pub approved : W → Bool
  pub newest_key : W → Option ℕ
  pub clock : W → ℕ
  pub canonical_key : RawTrade → Option ℕ
  pub stamp : RawTrade → Option ℕ
  pub number_stamp : RawTrade → Option ℕ

-- The recovery of a gap behind an anchor.
pub record Window : Type 0 where
  pub anchor_id : ℕ
  pub end_timestamp : ℕ
  pub next_offset : ℕ
  pub window_oldest : Option ℕ

pub data Reason : Type 0 where
  overlap_found initial_baseline recovery_in_progress wallet_disabled window_stalled window_rolled
        next_window_pending history_exhausted budget_reached :
      Reason

-- The context of a log entry: it is incomplete if it has a window, whose anchor is then the anchor of
-- the entry. The code opens a window only for an anchor, so that an incomplete entry has one.
pub record Entry : Type 0 where
  pub anchor_id : Option ℕ
  pub head_anchor : Option ℕ
  pub window : Option Window
  pub reason : Reason

pub data Event : Type 0 where
  checkpoint : Entry → Event
  -- the limit, the offset and the keys of a page
  fetched : ℕ → ℕ → List ℕ → Event

pub record Run (W : Type 0) : Type 0 where
  pub world : W
  pub trace : List Event
  pub head_anchor : Option ℕ
  pub inserted : ℕ
  pub quarantined : ℕ

-- `_keys`
unfoldable pub keys_of : {W : Type 0} → Feed W → List RawTrade → List ℕ
keys_of x [] = []
keys_of x (row ∷ rest) = elim (x.canonical_key row) [
  | none ↦ keys_of x rest
  | some key ↦ key ∷ keys_of x rest
]

-- `key in keys`
abbrev pub has_key : ℕ → List ℕ → Bool
has_key key keys = any (λ k. k == key) keys

-- `key in keys`, where the key may be None.
unfoldable pub has_optional : Option ℕ → List ℕ → Bool
has_optional none keys = false
has_optional (some key) keys = has_key key keys

unfoldable pub same_key : Option ℕ → Option ℕ → Bool
same_key none none = true
same_key (some a) (some b) = a == b
same_key _ _ = false

-- `max(int(row.get("timestamp", 0)) for row in latest)`, where the outer none is an error and the inner
-- one an empty page.
unfoldable pub newest_stamp : {W : Type 0} → Feed W → List RawTrade → Option (Option ℕ)
newest_stamp x [] = some none
newest_stamp x (row ∷ rest) = elim (x.stamp row) [
  | none ↦ none
  | some t ↦ elim (newest_stamp x rest) [
    | none ↦ none
    | some none ↦ some (some t)
    | some (some u) ↦ some (some (max t u))
  ]
]

-- `min(times)`, with the value that stands if there is no time.
unfoldable pub oldest_stamp : {W : Type 0} → Feed W → List RawTrade → Option ℕ → Option ℕ
oldest_stamp x [] default = default
oldest_stamp x (row ∷ rest) default =
    let older = oldest_stamp x rest none in
    elim (x.number_stamp row) [
      | none ↦ or_optional older default
      | some t ↦ some (min t (or_else older t))
    ]
  where
    or_optional : Option ℕ → Option ℕ → Option ℕ
    or_optional none d = d
    or_optional (some t) d = some t

unfoldable pub page_limit : ℕ → ℕ → ℕ
page_limit size offset = min size (10000 - offset)

-- The `checkpoint` of an incomplete and of a complete state.
unfoldable pub checkpoint_window : {W : Type 0} → Reason → Window → Run W → Run W
checkpoint_window reason w r =
    let entry : Entry = record {
      anchor_id = some w.anchor_id;
      head_anchor = r.head_anchor;
      window = some w;
      reason = reason;
    } in
    record r { trace = checkpoint entry ∷ r.trace }

unfoldable pub checkpoint_complete : {W : Type 0} → Reason → Option ℕ → Run W → Run W
checkpoint_complete reason latest_anchor r =
    let entry : Entry = record {
      anchor_id = latest_anchor;
      head_anchor = r.head_anchor;
      window = none;
      reason = reason;
    } in
    record r { trace = checkpoint entry ∷ r.trace }
