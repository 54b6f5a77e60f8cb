-- ===== src/Ingestion/Catchup/Continuity.antt =====
-- What the log of `ingest_approved_wallet` says of a gap in the trades of a wallet, and the pages that a
-- cycle asks for.
use poly.Prelude.{
  ℕ, zero, suc, ◌+◌, ◌≤◌, ◌<◌, ◌≡◌, refl, ◌⊎◌, inl, inr, Bool, true, false, ◌||◌, not, Option, none,
  some, List, [], ◌∷◌, if_case, leb, ltb, length, arith,
}
use poly.Ingestion.Identity.{RawTrade}
use poly.Ingestion.Catchup.{
  Feed, Window, Reason, Entry, Event, checkpoint, fetched, Run, keys_of, has_key, page_limit,
  checkpoint_window, checkpoint_complete,
}
use poly.Ingestion.Catchup.Step.{
  Round, next, stop, raised, Tail, open_window, keep_rows, next_window, connect, after_page,
  with_answer, fetch_page, roll_window, round, round_then, rounds, recover,
}

-- A page of the trace has the anchor.
abbrev pub seen : ℕ → List Event → Bool
seen anchor [] = false
seen anchor (checkpoint e ∷ es) = seen anchor es
seen anchor (fetched limit offset keys ∷ es) = has_key anchor keys || seen anchor es

abbrev pub pages : List Event → ℕ
pages [] = 0
pages (checkpoint e ∷ es) = pages es
pages (fetched limit offset keys ∷ es) = pages es + 1

-- An entry still has its window behind the anchor, or a page before it had the anchor.
abbrev pub IsHonest : ℕ → Entry → List Event → Type 0
IsHonest anchor e es =
    ((w : Window) × (e.window ≡ some w) × (w.anchor_id ≡ anchor)) ⊎ (seen anchor es ≡ true)

-- Each entry is honest, and each page has 1 to 500 rows within the offset 10000.
abbrev pub IsContinuous : ℕ → List Event → Type 0
IsContinuous anchor [] = Unit
IsContinuous anchor (checkpoint e ∷ es) = IsHonest anchor e es × IsContinuous anchor es
IsContinuous anchor (fetched limit offset keys ∷ es) =
    ((1 ≤ limit) × (limit ≤ 500) × (offset + limit ≤ 10000)) × IsContinuous anchor es

-- A trace of at most a number of pages.
pub record IsKept (anchor n : ℕ) (trace : List Event) : Type 0 where
  pub continuous : IsContinuous anchor trace
  pub few : pages trace ≤ n

-- A round that goes on keeps the anchor of its window.
abbrev OfRound : {W : Type 0} → ℕ → ℕ → Round W → Type 0
OfRound anchor n (next w r) = (w.anchor_id ≡ anchor) × IsKept anchor n r.trace
OfRound anchor n (stop r) = IsKept anchor n r.trace
OfRound anchor n (raised r) = IsKept anchor n r.trace

module _ {W : Type 0} (anchor n : ℕ) where
  checkpoint_window-IsKept :
      (reason : Reason) (w : Window) (r : Run W)
      → w.anchor_id ≡ anchor
      → IsKept anchor n r.trace
      → IsKept anchor n (checkpoint_window reason w r).trace
  unfolding checkpoint_window
  checkpoint_window-IsKept reason w r same k = record {
    continuous = (inl (w, refl, same), k.continuous);
    few = k.few;
  }

  -- An entry of any window, once the anchor was seen.
  checkpoint_window-seen :
      (reason : Reason) (w : Window) (r : Run W)
      → seen anchor r.trace ≡ true
      → IsKept anchor n r.trace
      → IsKept anchor n (checkpoint_window reason w r).trace
  unfolding checkpoint_window
  checkpoint_window-seen reason w r there k = record {
    continuous = (inr there, k.continuous);
    few = k.few;
  }

  pub checkpoint_complete-seen :
      (reason : Reason) (latest : Option ℕ) (r : Run W)
      → seen anchor r.trace ≡ true
      → IsKept anchor n r.trace
      → IsKept anchor n (checkpoint_complete reason latest r).trace
  unfolding checkpoint_complete
  checkpoint_complete-seen reason latest r there k = record {
    continuous = (inr there, k.continuous);
    few = k.few;
  }

module _ {W : Type 0} (x : Feed W) (anchor : ℕ) (tail : Tail) where
  next_window-IsKept :
      (n : ℕ) (latest : Option ℕ) (o : Option Window) (r : Run W)
      → seen anchor r.trace ≡ true
      → IsKept anchor n r.trace
      → OfRound anchor n (next_window x latest o r)
  unfolding next_window
  next_window-IsKept n latest none r there k = k
  next_window-IsKept n latest (some w) r there k =
      checkpoint_window-seen anchor n Reason.next_window_pending w
        (record r { head_anchor = latest }) there k

  connect-IsKept :
      (n : ℕ) (head : Option ℕ) (r : Run W)
      → seen anchor r.trace ≡ true
      → IsKept anchor n r.trace
      → OfRound anchor n (connect x tail head r)
  unfolding connect
  connect-IsKept n none r there k =
      checkpoint_complete-seen anchor n Reason.overlap_found tail.latest_anchor r there k
  connect-IsKept n (some head) r there k =
      if_case (OfRound anchor n) (has_key head tail.latest_keys) _ _
        (λ _. checkpoint_complete-seen anchor n Reason.overlap_found tail.latest_anchor r there k)
        (λ _.
          next_window-IsKept n tail.latest_anchor (open_window x head tail.latest r.world) r there
            k)

  after_page-IsKept :
      (n limit : ℕ) (rows : List RawTrade) (w : Window) (r : Run W)
      → (has_key anchor (keys_of x rows) ≡ true → seen anchor r.trace ≡ true)
      → w.anchor_id ≡ anchor
      → IsKept anchor n r.trace
      → OfRound anchor n (after_page x tail anchor limit rows w r)
  unfolding after_page
  after_page-IsKept n limit rows w r there same k =
      if_case (OfRound anchor n) (has_key anchor (keys_of x rows)) _ _
        (λ found. connect-IsKept n r.head_anchor r (there found) k)
        (λ _.
          if_case (OfRound anchor n) (ltb (length rows) limit) _ _
            (λ _. checkpoint_window-IsKept anchor n Reason.history_exhausted w r same k)
            (λ _. (same, checkpoint_window-IsKept anchor n Reason.budget_reached w r same k)))

  -- The answer of a page of a window.
  with_answer-IsKept :
      (n limit : ℕ) (answer : Option (List RawTrade)) (w : Window) (r : Run W)
      → w.anchor_id ≡ anchor
      → (1 ≤ limit) × (limit ≤ 500) × (w.next_offset + limit ≤ 10000)
      → IsKept anchor n r.trace
      → OfRound anchor (n + 1) (with_answer x tail anchor limit w r answer)
  unfolding with_answer keep_rows
  with_answer-IsKept n limit none w r same paged k = record {
    continuous = k.continuous;
    few = omega (arith, k.few);
  }
  with_answer-IsKept n limit (some rows) w r same paged k =
      after_page-IsKept (n + 1) limit rows _ (keep_rows x limit w.next_offset rows r)
        (λ found. ground arith) same
        (record { continuous = (paged, k.continuous); few = omega (arith, k.few) })

  module _ (size : ℕ) (sized : (1 ≤ size) × (size ≤ 500)) where
    fetch_page-IsKept :
        (n : ℕ) (w : Window) (r : Run W)
        → w.anchor_id ≡ anchor
        → w.next_offset < 10000
        → IsKept anchor n r.trace
        → OfRound anchor (n + 1) (fetch_page x tail anchor size w r)
    unfolding fetch_page page_limit
    fetch_page-IsKept n w r same low k =
        let limit = page_limit size w.next_offset in
        let h = sized in
        with_answer-IsKept n limit
          (x.get_trades limit w.next_offset (some w.end_timestamp) r.world).0 w
          (record r { world = (x.get_trades limit w.next_offset (some w.end_timestamp) r.world).1 })
          same (omega arith, omega arith, omega arith) k

    more : {n : ℕ} {trace : List Event} → IsKept anchor n trace → IsKept anchor (n + 1) trace
    more k = record { continuous = k.continuous; few = omega (arith, k.few) }

    roll_window-IsKept :
        (n : ℕ) (o : Option ℕ) (w : Window) (r : Run W)
        → w.anchor_id ≡ anchor
        → IsKept anchor n r.trace
        → OfRound anchor (n + 1) (roll_window x tail anchor size o w r)
    unfolding roll_window
    roll_window-IsKept n none w r same k =
        more (checkpoint_window-IsKept anchor n Reason.window_stalled w r same k)
    roll_window-IsKept n (some oldest) w r same k =
        let rolled : Window = record w { end_timestamp = oldest; next_offset = 0 } in
        if_case (OfRound anchor (n + 1)) (leb w.end_timestamp oldest) _ _
          (λ _. more (checkpoint_window-IsKept anchor n Reason.window_stalled w r same k))
          (λ _.
            fetch_page-IsKept n rolled (checkpoint_window Reason.window_rolled rolled r) same
              (omega arith)
              (checkpoint_window-IsKept anchor n Reason.window_rolled rolled r same k))

    round-IsKept :
        (n : ℕ) (w : Window) (r : Run W)
        → w.anchor_id ≡ anchor
        → IsKept anchor n r.trace
        → OfRound anchor (n + 1) (round x tail anchor size w r)
    unfolding round
    round-IsKept n w r same k =
        if_case (OfRound anchor (n + 1)) (not (x.approved r.world)) _ _
          (λ _. more (checkpoint_window-IsKept anchor n Reason.wallet_disabled w r same k))
          (λ _.
            if_case (OfRound anchor (n + 1)) (leb 10000 w.next_offset) _ _
              (λ _. roll_window-IsKept n w.window_oldest w r same k)
              (λ low. fetch_page-IsKept n w r same (ground arith) k))

    round_then-IsKept :
        (n m : ℕ) (again : Window → Run W → Bool × Run W) (t : Round W)
        → OfRound anchor n t
        → n ≤ m
        → ((w : Window) (r : Run W)
            → w.anchor_id ≡ anchor
            → IsKept anchor n r.trace
            → IsKept anchor m (again w r).1.trace)
        → IsKept anchor m (round_then x again t).1.trace
    unfolding round_then
    round_then-IsKept n m again (next w r) (same, k) le after = after w r same k
    round_then-IsKept n m again (stop r) k le after = record {
      continuous = k.continuous;
      few = omega (arith, k.few);
    }
    round_then-IsKept n m again (raised r) k le after = record {
      continuous = k.continuous;
      few = omega (arith, k.few);
    }

    rounds-IsKept :
        (budget n : ℕ) (w : Window) (r : Run W)
        → w.anchor_id ≡ anchor
        → IsKept anchor n r.trace
        → IsKept anchor (budget + n) (rounds x tail anchor size budget w r).1.trace
    unfolding rounds
    rounds-IsKept zero n w r same k = record {
      continuous = k.continuous;
      few = omega (arith, k.few);
    }
    rounds-IsKept (suc budget) n w r same k =
        round_then-IsKept (n + 1) (suc budget + n) (rounds x tail anchor size budget)
          (round x tail anchor size w r) (round-IsKept n w r same k) (omega arith)
          (λ w' r' same' k'.
            let rest = rounds-IsKept budget (n + 1) w' r' same' k' in
            record { continuous = rest.continuous; few = omega (arith, rest.few) })

    pub recover-IsKept :
        (budget n : ℕ) (o : Option Window) (r : Run W)
        → ((w : Window) → o ≡ some w → w.anchor_id ≡ anchor)
        → IsKept anchor n r.trace
        → IsKept anchor (budget + n) (recover x tail anchor size budget o r).1.trace
    unfolding recover
    recover-IsKept budget n none r same k = record {
      continuous = k.continuous;
      few = omega (arith, k.few);
    }
    recover-IsKept budget n (some w) r same k =
        rounds-IsKept budget n w (checkpoint_window Reason.recovery_in_progress w r) (same w refl)
          (checkpoint_window-IsKept anchor n Reason.recovery_in_progress w r (same w refl) k)
