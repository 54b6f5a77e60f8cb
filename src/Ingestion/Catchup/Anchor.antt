-- ===== src/Ingestion/Catchup/Anchor.antt =====
-- The whole of `ingest_approved_wallet` keeps the anchor of a gap.
use poly.Prelude.{
  ℕ, ◌+◌, ◌≤◌, ◌≡◌, sym, subst, min, max, Bool, true, ◌&&◌, Option, none, some, List, [], if_case,
  is_some, arith,
}
use poly.Ingestion.Identity.{RawTrade}
use poly.Ingestion.Catchup.{Feed, Window, Reason, Entry, Run, keys_of, has_key, same_key}
use poly.Ingestion.Catchup.Step.{
  Tail, open_window, keep_rows, tail_head, settled_tail, judge_tail, start_anchor, start_head,
  first_key, with_tail, ingest_approved_wallet,
}
use poly.Ingestion.Catchup.Continuity.{seen, IsKept, checkpoint_complete-seen, recover-IsKept}

module _ {W : Type 0} (x : Feed W) (anchor : ℕ) where
  open_window-anchor :
      (latest : List RawTrade) (world : W) (w : Window)
      → open_window x anchor latest world ≡ some w
      → w.anchor_id ≡ anchor
  unfolding open_window
  open_window-anchor latest world w h = grind arith

  settled_tail-IsKept :
      (n : ℕ) (tail : Tail) (prior : Option Entry) (r : Run W)
      → seen anchor r.trace ≡ true
      → IsKept anchor n r.trace
      → IsKept anchor n (settled_tail x tail prior (some anchor) r).1.trace
  unfolding settled_tail
  settled_tail-IsKept n tail prior r there k =
      if_case (λ (t : Bool × Run W). IsKept anchor n t.1.trace)
        (is_some prior && same_key tail.latest_anchor (some anchor)) _ _ (λ _. k)
        (λ _. checkpoint_complete-seen anchor n Reason.overlap_found tail.latest_anchor r there k)

  judge_tail-IsKept :
      (size budget n : ℕ) (tail : Tail) (prior : Option Entry) (window : Option Window) (r : Run W)
      → (1 ≤ size) × (size ≤ 500)
      → ((w : Window) → window ≡ some w → w.anchor_id ≡ anchor)
      → (has_key anchor tail.latest_keys ≡ true → seen anchor r.trace ≡ true)
      → IsKept anchor n r.trace
      → IsKept anchor
          (budget + n)
          (judge_tail x size budget tail prior window (some anchor) r).1.trace
  unfolding judge_tail
  judge_tail-IsKept size budget n tail prior none r sized same there k =
      if_case (λ (t : Bool × Run W). IsKept anchor (budget + n) t.1.trace)
        (has_key anchor tail.latest_keys) _ _
        (λ found.
          settled_tail-IsKept (budget + n) tail prior r (there found)
            (record { continuous = k.continuous; few = omega (arith, k.few) }))
        (λ _.
          recover-IsKept x anchor tail size sized budget n
            (open_window x anchor tail.latest r.world) r (open_window-anchor tail.latest r.world) k)
  judge_tail-IsKept size budget n tail prior (some w) r sized same there k =
      if_case (λ (t : Bool × Run W). IsKept anchor (budget + n) t.1.trace)
        (has_key anchor tail.latest_keys) _ _
        (λ found.
          settled_tail-IsKept (budget + n) tail prior r (there found)
            (record { continuous = k.continuous; few = omega (arith, k.few) }))
        (λ _. recover-IsKept x anchor tail size sized budget n (some w) r same k)

  start_anchor-window :
      (prior : Option Entry) (world : W)
      → start_anchor x prior world ≡ some anchor
      → (w : Window)
      → (elim prior as (λ _. Option Window) [ none ↦ none | some e ↦ e.window ]) ≡ some w
      → w.anchor_id ≡ anchor
  unfolding start_anchor
  start_anchor-window none world h w e = absurd (grind arith)
  start_anchor-window (some e) world h w same = grind arith

  with_tail-IsKept :
      (size budget : ℕ) (prior : Option Entry) (before : W) (answer : Option (List RawTrade))
      (world : W)
      → (1 ≤ size) × (size ≤ 500)
      → start_anchor x prior before ≡ some anchor
      → IsKept anchor (budget + 1) (with_tail x size budget prior before (answer, world)).1.trace
  unfolding with_tail keep_rows
  with_tail-IsKept size budget prior before none world sized start = record {
    continuous = tt;
    few = omega arith;
  }
  with_tail-IsKept size budget prior before (some latest) world sized start =
      let keys = keys_of x latest in
      let tail : Tail = record {
        latest = latest;
        latest_keys = keys;
        latest_anchor = first_key x keys (start_anchor x prior before);
      } in
      let window : Option Window = elim prior [ none ↦ none | some e ↦ e.window ] in
      let run : Run W = record {
        world = world;
        trace = [];
        head_anchor = tail_head x window (start_head x prior before) tail;
        inserted = 0;
        quarantined = 0;
      } in
      let r = keep_rows x size 0 latest run in
      let k : IsKept anchor 1 r.trace = record {
        continuous = ((sized.0, sized.1, omega (arith, sized.1)), tt);
        few = omega arith;
      } in
      subst
        (λ a. IsKept anchor (budget + 1) (judge_tail x size budget tail prior window a r).1.trace)
        (sym start)
        (judge_tail-IsKept size budget 1 tail prior window r sized
          (start_anchor-window prior before start) (λ found. ground arith) k)

  -- A cycle for an approved wallet that starts from an anchor, the one of the last entry or the newest
  -- stored trade, never drops it: each log entry keeps an incomplete window behind the anchor, unless a
  -- page that came before it had the anchor. A cycle asks for at most one page more than its budget, and
  -- each page has 1 to 500 rows within the offset 10000.
  pub ingest_approved_wallet-IsKept :
      (batch_size budget : ℕ) (prior : Option Entry) (world : W)
      → start_anchor x prior world ≡ some anchor
      → IsKept anchor
          (max 1 budget + 1)
          (ingest_approved_wallet x batch_size budget prior world).1.trace
  unfolding ingest_approved_wallet
  ingest_approved_wallet-IsKept batch_size budget prior world start =
      let size = min (max 1 batch_size) 500 in
      let (answer, after) = x.get_trades size 0 none world in
      with_tail-IsKept size (max 1 budget) prior world answer after (omega arith, omega arith) start
