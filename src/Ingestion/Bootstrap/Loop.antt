-- ===== src/Ingestion/Bootstrap/Loop.antt =====
-- The loop of `bootstrap_wallet_history` ends within its fuel.
use poly.Prelude.{
  subst, Bool-cases, inl, inr, ℕ, zero, suc, ◌+◌, ◌≤◌, ◌<◌, ◌≡◌, refl, not, ◌||◌, Option, none,
  some, List, [], ◌∷◌, ◌++◌, ltb, leb, ◌==◌, if◌then◌else◌, if_case, length, arith,
}
use poly.Ingestion.Identity.{RawTrade}
use poly.Ingestion.Bootstrap.{
  BootstrapSettings, max_trades, max_pages, max_requests, max_offset, History, Reason, Context, Run,
  persist_progress, is_mature, has_budget, earliest,
}
use poly.Ingestion.Bootstrap.Turn.{
  Turn, going, broken, roll_to, roll, reserve, called, keep_page, settlement_limit, refresh_result,
  settle, judge, judge_after, answer_page, request_page, request_after, turn, loop_after, run_loop,
}
use poly.Ingestion.Bootstrap.Bounds.{IsRoomy, OfTurn, has_budget-IsRoomy}

-- The number of pages of this run.
abbrev Counts : ℕ → {W : Type 0} → Turn W → Type 0
Counts n = OfTurn (λ r. r.pages_this_run ≡ n)

module _ {W : Type 0} where
  roll_to-Counts :
      (state : Context) (o : Option ℕ) (r : Run W) → Counts r.pages_this_run (roll_to state o r)
  unfolding roll_to persist_progress
  roll_to-Counts state none r = refl
  roll_to-Counts state (some oldest) r =
      let moved : Run W = record r { end_ts = oldest; offset = 0 } in
      if_case (Counts r.pages_this_run) (leb r.end_ts oldest)
        (broken Reason.configured_limit_reached r) (going (persist_progress state moved))
        (λ _. refl) (λ _. refl)

  roll-Counts : (state : Context) (r : Run W) → Counts r.pages_this_run (roll state r)
  unfolding roll
  roll-Counts state r =
      if_case (Counts r.pages_this_run) (leb max_offset r.offset) (roll_to state r.window_oldest r)
        (going r) (λ _. roll_to-Counts state r.window_oldest r) (λ _. refl)

  refresh_result-Counts :
      (markets : List ℕ) (answer : Option (ℕ × ℕ)) (r : Run W)
      → Counts r.pages_this_run (refresh_result markets answer r)
  unfolding refresh_result
  refresh_result-Counts markets none r = refl
  refresh_result-Counts markets (some (errors, checked)) r =
      let checked_run : Run W = record r { settlement_checked = r.settlement_checked ++ markets } in
      if_case (Counts r.pages_this_run) (not (errors == 0)) (broken Reason.upstream_error r)
        (if checked == length markets then going checked_run else going r) (λ _. refl)
        (λ _.
          if_case (Counts r.pages_this_run) (checked == length markets) (going checked_run)
            (going r) (λ _. refl) (λ _. refl))

module _ {W : Type 0} (x : History W) (c : BootstrapSettings) (now : ℕ) (state : Context) where
  settle-Counts :
      (markets : List ℕ) (r : Run W) → Counts r.pages_this_run (settle x state markets r)
  unfolding settle persist_progress
  settle-Counts [] r = refl
  settle-Counts (m ∷ ms) r = refresh_result-Counts (m ∷ ms) (x.refresh (m ∷ ms) r.world).0 _

  judge-Counts : (limit rows : ℕ) (r : Run W) → Counts r.pages_this_run (judge x c now limit rows r)
  unfolding judge
  judge-Counts limit rows r =
      let e = x.evidence r.world in
      let oldest = earliest r.oldest e.oldest in
      let mature = is_mature now e.local_count e.settled_count oldest in
      if_case (Counts r.pages_this_run) mature _ _ (λ _. refl)
        (λ _.
          if_case (Counts r.pages_this_run) (ltb rows limit) _ _ (λ _. refl)
            (λ _.
              if_case (Counts r.pages_this_run)
                (leb (max_requests c) r.requests
                  || leb (max_pages c) r.pages
                  || leb (max_trades c) r.rows_fetched)
                _ _ (λ _. refl) (λ _. refl)))

  judge_after-Counts :
      (limit rows n : ℕ) (t : Turn W) → Counts n t → Counts n (judge_after x c now limit rows t)
  unfolding judge_after
  judge_after-Counts limit rows n (broken reason r) h = h
  judge_after-Counts limit rows n (going r) h =
      subst (λ m. Counts m (judge x c now limit rows r)) h (judge-Counts limit rows r)

  answer_page-Counts :
      (limit : ℕ) (answer : Option (List RawTrade)) (r : Run W)
      → Counts r.pages_this_run (answer_page x c now state limit answer r)
  unfolding answer_page keep_page persist_progress
  answer_page-Counts limit none r = refl
  answer_page-Counts limit (some []) r = refl
  answer_page-Counts limit (some (raw ∷ rest)) r =
      let r' = keep_page x state (raw ∷ rest) r in
      judge_after-Counts limit (length (raw ∷ rest)) r.pages_this_run _
        (settle-Counts (x.unsettled r'.settlement_checked (settlement_limit x c r') r'.world) r')

  request_page-Counts : (r : Run W) → Counts (r.pages_this_run + 1) (request_page x c now state r)
  unfolding request_page called reserve persist_progress
  request_page-Counts r = answer_page-Counts _ _ _

  -- Where a turn goes on, it has counted a page.
  request_after-Counts :
      (n : ℕ) (t : Turn W) {r' : Run W}
      → Counts n t
      → request_after x c now state t ≡ going r'
      → r'.pages_this_run ≡ n + 1
  unfolding request_after
  request_after-Counts n (broken reason r) h e = absurd (grind arith)
  request_after-Counts n (going r) h e =
      subst (Counts (n + 1)) e
        (subst (λ m. Counts (m + 1) (request_page x c now state r)) h (request_page-Counts r))

  turn_counts :
      (r : Run W) {r' : Run W}
      → turn x c now state r ≡ going r'
      → r'.pages_this_run ≡ r.pages_this_run + 1
  unfolding turn
  turn_counts r e = request_after-Counts r.pages_this_run (roll state r) (roll-Counts state r) e

  loop_after_ends :
      (P : Run W → Type 0) (again : Run W → Option (Reason × Run W)) (t : Turn W)
      → OfTurn P t
      → ((r : Run W)
          → t ≡ going r
          → P r
          → (reason : Reason) × (end : Run W) × (again r ≡ some (reason, end)) × P end)
      → (reason : Reason) × (end : Run W) × (loop_after again t ≡ some (reason, end)) × P end
  unfolding loop_after
  loop_after_ends P again (broken reason r) h next = (reason, r, refl, h)
  loop_after_ends P again (going r) h next = next r refl h

  -- The loop ends, if it has more fuel than its run has pages left, and keeps what each turn keeps.
  pub run_loop_ends :
      (P : Run W → Type 0) (fuel : ℕ) (r : Run W)
      → ((s : Run W) → P s → IsRoomy c s → OfTurn P (turn x c now state s))
      → P r
      → r.pages_this_run ≤ c.bootstrap_pages_per_run
      → c.bootstrap_pages_per_run < fuel + r.pages_this_run
      → (reason : Reason) × (end : Run W) × (run_loop x c now state fuel r ≡ some (reason, end))
        × P end
  unfolding run_loop
  run_loop_ends P zero r step h low enough = absurd (omega arith)
  run_loop_ends P (suc fuel) r step h low enough = elim (Bool-cases (has_budget c r)) [
    | inr spent ↦ (Reason.configured_limit_reached, r, rw (spent, run_loop) refl, h)
    | inl full ↦
        let room = has_budget-IsRoomy c r full in
        let (reason, end, ends, h') =
          loop_after_ends P (run_loop x c now state fuel) (turn x c now state r) (step r h room)
            (λ r' e h'.
              let counted = turn_counts r e in
              let left = room.turns in
              run_loop_ends P fuel r' step h' (omega arith) (omega arith)) in
        (reason, end, rw (full, run_loop) ends, h')
  ]
