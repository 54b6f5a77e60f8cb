-- ===== src/Ingestion/Bootstrap/Turns.antt =====
-- A turn of the loop of `bootstrap_wallet_history` keeps the budgets.
use poly.Prelude.{
  ℕ, ◌+◌, ◌-◌, ◌/◌, ◌≤◌, ◌<◌, ◌≡◌, refl, ◌||◌, not, Option, none, some, List, [], ◌∷◌, ◌++◌, ltb,
  leb, ◌==◌, if_case, length, arith,
}
use poly.Ingestion.Identity.{RawTrade}
use poly.Ingestion.Bootstrap.{
  BootstrapSettings, max_trades, max_pages, max_requests, max_offset, History, IsLawful, Reason,
  Context, Run, persist_progress, earliest, latest, is_mature,
}
use poly.Ingestion.Bootstrap.Turn.{
  Turn, going, broken, roll, reserve, called, requested_limit, keep_page, settlement_limit,
  refresh_result, settle, judge, judge_after, answer_page, request_page, request_after, turn,
}
use poly.Ingestion.Bootstrap.Bounds.{IsKept, IsRoomy, IsReady, OfTurn, roll-IsReady, called-IsKept}

module _ {W : Type 0} (x : History W) (c : BootstrapSettings) (p q n : ℕ) where
  refresh_result-IsKept :
      (markets : List ℕ) (answer : Option (ℕ × ℕ)) (r : Run W)
      → IsKept c p q n r
      → OfTurn (IsKept c p q n) (refresh_result markets answer r)
  unfolding refresh_result
  refresh_result-IsKept markets none r k = k
  refresh_result-IsKept markets (some (errors, checked)) r k =
      if_case (OfTurn (IsKept c p q n)) (not (errors == 0)) (broken Reason.upstream_error r) _
        (λ _. k)
        (λ _.
          if_case (OfTurn (IsKept c p q n)) (checked == length markets)
            (going (record r { settlement_checked = r.settlement_checked ++ markets })) (going r)
            (λ _. record {
              few_pages = k.few_pages;
              few_rows = k.few_rows;
              few_requests = k.few_requests;
              few_turns = k.few_turns;
              paid = k.paid;
              all_spent = k.all_spent;
              all_reserved = k.all_reserved;
              accounted = k.accounted;
            })
            (λ _. k))

  settle-IsKept :
      (state : Context) (markets : List ℕ) (r : Run W)
      → length markets ≤ (max_requests c - r.requests) / 2
      → IsKept c p q n r
      → OfTurn (IsKept c p q n) (settle x state markets r)
  unfolding settle persist_progress
  settle-IsKept state [] r few k = k
  settle-IsKept state (m ∷ ms) r few k =
      refresh_result-IsKept (m ∷ ms) (x.refresh (m ∷ ms) r.world).0 _ (record {
        few_pages = k.few_pages;
        few_rows = k.few_rows;
        few_requests = omega (arith, few, k.few_requests);
        few_turns = k.few_turns;
        paid = (omega (arith, k.all_spent), tt, (omega (arith, k.all_spent), tt, k.paid));
        all_spent = omega (arith, k.all_spent);
        all_reserved = refl;
        accounted = k.accounted;
      })

  settlement_limit_few : (r : Run W) → settlement_limit x c r ≤ (max_requests c - r.requests) / 2
  unfolding settlement_limit
  settlement_limit_few r = ground arith

  keep_page-IsKept :
      (state : Context) (rows : List RawTrade) (r : Run W)
      → length rows + r.rows_fetched ≤ max_trades c
      → (x.ingest rows r.world).0.0 + (x.ingest rows r.world).0.1 ≤ length rows
      → IsKept c p q n r
      → IsKept c p q n (keep_page x state rows r)
  unfolding keep_page persist_progress
  keep_page-IsKept state rows r few counts k = record {
    few_pages = k.few_pages;
    few_rows = omega (arith, few);
    few_requests = k.few_requests;
    few_turns = k.few_turns;
    paid = (omega (arith, k.all_spent), tt, k.paid);
    all_spent = k.all_spent;
    all_reserved = refl;
    accounted = omega (arith, counts, k.accounted);
  }

  judge-IsKept :
      (now limit rows : ℕ) (r : Run W)
      → IsKept c p q n r
      → OfTurn (IsKept c p q n) (judge x c now limit rows r)
  unfolding judge
  judge-IsKept now limit rows r k =
      let e = x.evidence r.world in
      let oldest = earliest r.oldest e.oldest in
      let mature = is_mature now e.local_count e.settled_count oldest in
      let r' : Run W = record r {
        oldest = oldest;
        newest = latest r.newest e.newest;
        mature = mature;
      } in
      let k' : IsKept c p q n r' = record {
        few_pages = k.few_pages;
        few_rows = k.few_rows;
        few_requests = k.few_requests;
        few_turns = k.few_turns;
        paid = k.paid;
        all_spent = k.all_spent;
        all_reserved = k.all_reserved;
        accounted = k.accounted;
      } in
      if_case (OfTurn (IsKept c p q n)) mature _ _ (λ _. k')
        (λ _.
          if_case (OfTurn (IsKept c p q n)) (ltb rows limit) _ _ (λ _. k')
            (λ _.
              if_case (OfTurn (IsKept c p q n))
                (leb (max_requests c) r.requests
                  || leb (max_pages c) r.pages
                  || leb (max_trades c) r.rows_fetched)
                _ _ (λ _. k') (λ _. k')))

  judge_after-IsKept :
      (now limit rows : ℕ) (t : Turn W)
      → OfTurn (IsKept c p q n) t
      → OfTurn (IsKept c p q n) (judge_after x c now limit rows t)
  unfolding judge_after
  judge_after-IsKept now limit rows (broken reason r) k = k
  judge_after-IsKept now limit rows (going r) k = judge-IsKept now limit rows r k

  module _ (lawful : IsLawful x) (now : ℕ) (state : Context) where
    answer_page-IsKept :
        (limit : ℕ) (answer : Option (List RawTrade)) (r : Run W)
        → ((rows : List RawTrade) → answer ≡ some rows → length rows ≤ limit)
        → limit + r.rows_fetched ≤ max_trades c
        → IsKept c p q n r
        → OfTurn (IsKept c p q n) (answer_page x c now state limit answer r)
    unfolding answer_page
    answer_page-IsKept limit none r h few k = k
    answer_page-IsKept limit (some []) r h few k = k
    answer_page-IsKept limit (some (raw ∷ rest)) r h few k =
        let rows = raw ∷ rest in
        let r' = keep_page x state rows r in
        let limit' = settlement_limit x c r' in
        let short = h rows refl in
        judge_after-IsKept now limit (length rows) _ (
          settle-IsKept state (x.unsettled r'.settlement_checked limit' r'.world) r'
            (omega (
              arith,
              lawful.queries r'.settlement_checked limit' r'.world,
              settlement_limit_few r',
            ))
            (keep_page-IsKept state rows r (omega arith) (lawful.counts rows r.world) k))

    request_page-IsKept :
        (r : Run W)
        → IsKept c p q n r
        → IsRoomy c r
        → r.offset < max_offset
        → OfTurn (IsKept c p q n) (request_page x c now state r)
    unfolding request_page
    request_page-IsKept r k room low =
        let reserved = reserve state r in
        let limit = requested_limit c reserved in
        let world = (x.get_trades limit reserved.offset reserved.end_ts reserved.world).1 in
        let (k', few) = called-IsKept c state p q n r world k room low in
        answer_page-IsKept limit
          (x.get_trades limit reserved.offset reserved.end_ts reserved.world).0
          (called state c r world)
          (lawful.pages limit reserved.offset reserved.end_ts reserved.world) few k'

    request_after-IsKept :
        (t : Turn W)
        → IsReady c state p q n t
        → OfTurn (IsKept c p q n) (request_after x c now state t)
    unfolding request_after
    request_after-IsKept (broken reason r) k = k
    request_after-IsKept (going r) (k, room, low) = request_page-IsKept r k room low

    -- A turn of the loop keeps the budgets, if there is budget at its start.
    pub turn-IsKept :
        (r : Run W)
        → IsKept c p q n r
        → IsRoomy c r
        → OfTurn (IsKept c p q n) (turn x c now state r)
    unfolding turn
    turn-IsKept r k room = request_after-IsKept (roll state r) (roll-IsReady c state p q n r k room)
