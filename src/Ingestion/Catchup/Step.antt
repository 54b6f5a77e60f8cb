-- ===== src/Ingestion/Catchup/Step.antt =====
-- The rounds of `ingest_approved_wallet` and the whole function.
use poly.Prelude.{
  ℕ, zero, suc, ◌+◌, min, max, Bool, true, false, ◌&&◌, not, Option, none, some, List, [], ◌∷◌,
  if◌then◌else◌, leb, ltb, length, or_else, is_some,
}
use poly.Ingestion.Identity.{RawTrade}
use poly.Ingestion.Catchup.{
  Feed, Window, Reason, Entry, fetched, Run, keys_of, has_key, has_optional, same_key, newest_stamp,
  oldest_stamp, page_limit, checkpoint_window, checkpoint_complete,
}

-- How a round ends: with the window of the next one, with the end of the rounds, or with an error.
pub data Round (W : Type 0) : Type 0 where
  next : Window → Run W → Round W
  stop raised : Run W → Round W

-- The page of the tail, with what is computed from it.
pub record Tail : Type 0 where
  pub latest : List RawTrade
  pub latest_keys : List ℕ
  pub latest_anchor : Option ℕ

module _ {W : Type 0} (x : Feed W) where
  -- A fresh window behind an anchor, which ends at the newest trade of the tail; none is an error.
  unfoldable pub open_window : ℕ → List RawTrade → W → Option Window
  unfolding newest_stamp
  open_window anchor latest world = elim (newest_stamp x latest) [
    | none ↦ none
    | some end ↦ some (record {
      anchor_id = anchor;
      end_timestamp = or_else end (x.clock world);
      next_offset = 0;
      window_oldest = none;
    })
  ]

  -- The page is in the trace, and its trades are stored.
  unfoldable pub keep_rows : ℕ → ℕ → List RawTrade → Run W → Run W
  unfolding keys_of
  keep_rows limit offset rows r =
      let ((inserted, quarantined), world) = x.ingest rows r.world in
      record r {
        world = world;
        trace = fetched limit offset (keys_of x rows) ∷ r.trace;
        inserted = r.inserted + inserted;
        quarantined = r.quarantined + quarantined;
      }

  -- The next window, if newer trades moved beyond the head: none is the error of a timestamp.
  unfoldable pub next_window : Option ℕ → Option Window → Run W → Round W
  unfolding checkpoint_window
  next_window latest_anchor none r = raised r
  next_window latest_anchor (some w) r =
      stop
        (checkpoint_window Reason.next_window_pending w (record r { head_anchor = latest_anchor }))

  -- The anchor was found in an older page.
  unfoldable pub connect : Tail → Option ℕ → Run W → Round W
  unfolding checkpoint_complete next_window open_window
  connect tail none r = stop (checkpoint_complete Reason.overlap_found tail.latest_anchor r)
  connect tail (some head) r =
      if has_key head tail.latest_keys
      then stop (checkpoint_complete Reason.overlap_found tail.latest_anchor r)
      else next_window tail.latest_anchor (open_window head tail.latest r.world) r

  -- The end of a round, by its limit and its rows.
  unfoldable pub after_page : Tail → ℕ → ℕ → List RawTrade → Window → Run W → Round W
  unfolding connect checkpoint_window keys_of
  after_page tail anchor limit rows w r =
      if has_key anchor (keys_of x rows)
      then connect tail r.head_anchor r
      else if ltb (length rows) limit
      then stop (checkpoint_window Reason.history_exhausted w r)
      else next w (checkpoint_window Reason.budget_reached w r)

  -- What becomes of the answer to a page of the window, where none is an error of the client.
  unfoldable pub with_answer : Tail → ℕ → ℕ → Window → Run W → Option (List RawTrade) → Round W
  unfolding keep_rows oldest_stamp after_page
  with_answer tail anchor limit w r none = raised r
  with_answer tail anchor limit w r (some rows) =
      after_page tail anchor limit rows
        (record w {
          next_offset = w.next_offset + length rows;
          window_oldest = oldest_stamp x rows w.window_oldest;
        })
        (keep_rows limit w.next_offset rows r)

  -- The request of a page of the window.
  unfoldable pub fetch_page : Tail → ℕ → ℕ → Window → Run W → Round W
  unfolding page_limit with_answer
  fetch_page tail anchor size w r =
      let limit = page_limit size w.next_offset in
      let (answer, world) = x.get_trades limit w.next_offset (some w.end_timestamp) r.world in
      with_answer tail anchor limit w (record r { world = world }) answer

  -- The window behind the bound on the offset, with the oldest time that it saw.
  unfoldable pub roll_window : Tail → ℕ → ℕ → Option ℕ → Window → Run W → Round W
  unfolding checkpoint_window fetch_page
  roll_window tail anchor size none w r = stop (checkpoint_window Reason.window_stalled w r)
  roll_window tail anchor size (some oldest) w r =
      let rolled = record w { end_timestamp = oldest; next_offset = 0 } in
      if leb w.end_timestamp oldest
      then stop (checkpoint_window Reason.window_stalled w r)
      else fetch_page tail anchor size rolled (checkpoint_window Reason.window_rolled rolled r)

  unfoldable pub round : Tail → ℕ → ℕ → Window → Run W → Round W
  unfolding checkpoint_window roll_window fetch_page
  round tail anchor size w r =
      if not (x.approved r.world)
      then stop (checkpoint_window Reason.wallet_disabled w r)
      else if leb 10000 w.next_offset
      then roll_window tail anchor size w.window_oldest w r
      else fetch_page tail anchor size w r

  -- What follows a round; true is an error that the caller sees.
  unfoldable pub round_then : (Window → Run W → Bool × Run W) → Round W → Bool × Run W
  round_then again (next w r) = again w r
  round_then again (stop r) = (false, r)
  round_then again (raised r) = (true, r)

  unfoldable pub rounds : Tail → ℕ → ℕ → ℕ → Window → Run W → Bool × Run W
  unfolding round round_then
  rounds tail anchor size zero w r = (false, r)
  rounds tail anchor size (suc budget) w r =
      round_then (rounds tail anchor size budget) (round tail anchor size w r)

  -- The window is checkpointed before any further call.
  unfoldable pub recover : Tail → ℕ → ℕ → ℕ → Option Window → Run W → Bool × Run W
  unfolding rounds checkpoint_window
  recover tail anchor size budget none r = (true, r)
  recover tail anchor size budget (some w) r =
      rounds tail anchor size budget w (checkpoint_window Reason.recovery_in_progress w r)

  -- The end with the tail connected.
  unfoldable pub settled_tail : Tail → Option Entry → Option ℕ → Run W → Bool × Run W
  unfolding checkpoint_complete same_key
  settled_tail tail prior anchor r =
      if is_some prior && same_key tail.latest_anchor anchor then (false, r) else (
        false,
        checkpoint_complete
            (if is_some anchor then Reason.overlap_found else Reason.initial_baseline)
            tail.latest_anchor r,
      )

  -- The head that the tail leaves: it stands only in an incomplete window that the tail does not reach.
  unfoldable pub tail_head : Option Window → Option ℕ → Tail → Option ℕ
  unfolding has_optional
  tail_head none head tail = tail.latest_anchor
  tail_head (some w) head tail =
      if has_optional head tail.latest_keys then tail.latest_anchor else head

  -- The function behind the page of the tail, by the prior window and the anchor.
  unfoldable pub judge_tail :
      ℕ → ℕ → Tail → Option Entry → Option Window → Option ℕ → Run W → Bool × Run W
  unfolding settled_tail recover open_window
  judge_tail size budget tail prior window none r = settled_tail tail prior none r
  judge_tail size budget tail prior none (some anchor) r =
      if has_key anchor tail.latest_keys
      then settled_tail tail prior (some anchor) r
      else recover tail anchor size budget (open_window anchor tail.latest r.world) r
  judge_tail size budget tail prior (some w) (some anchor) r =
      if has_key anchor tail.latest_keys
      then settled_tail tail prior (some anchor) r
      else recover tail anchor size budget (some w) r

  -- The anchor that a cycle starts from: that of the last entry, or the newest stored trade.
  unfoldable pub start_anchor : Option Entry → W → Option ℕ
  start_anchor none world = x.newest_key world
  start_anchor (some e) world = elim e.window [
    | some w ↦ some w.anchor_id
    | none ↦ elim e.anchor_id [ some a ↦ some a | none ↦ x.newest_key world ]
  ]

  unfoldable pub start_head : Option Entry → W → Option ℕ
  unfolding start_anchor
  start_head none world = start_anchor none world
  start_head (some e) world = e.head_anchor

  unfoldable pub first_key : List ℕ → Option ℕ → Option ℕ
  first_key [] default = default
  first_key (k ∷ ks) default = some k

  -- The function from the page of the tail on, where none is an error of the client.
  unfoldable pub with_tail : ℕ → ℕ → Option Entry → W → Option (List RawTrade) × W → Bool × Run W
  unfolding keys_of first_key start_anchor start_head tail_head keep_rows judge_tail
  with_tail size budget prior before (none, world) = (
    true,
    record { world = world; trace = []; head_anchor = none; inserted = 0; quarantined = 0 },
  )
  with_tail size budget prior before (some latest, world) =
      let anchor = start_anchor prior before in
      let keys = keys_of x latest in
      let tail : Tail = record {
        latest = latest;
        latest_keys = keys;
        latest_anchor = first_key keys anchor;
      } in
      let window : Option Window = elim prior [ none ↦ none | some e ↦ e.window ] in
      let run : Run W = record {
        world = world;
        trace = [];
        head_anchor = tail_head window (start_head prior before) tail;
        inserted = 0;
        quarantined = 0;
      } in
      judge_tail size budget tail prior window anchor (keep_rows size 0 latest run)

  -- The whole function, with the batch size and the pages of a cycle from the settings.
  unfoldable pub ingest_approved_wallet : ℕ → ℕ → Option Entry → W → Bool × Run W
  unfolding with_tail
  ingest_approved_wallet batch_size pages prior world =
      let size = min (max 1 batch_size) 500 in
      with_tail size (max 1 pages) prior world (x.get_trades size 0 none world)
