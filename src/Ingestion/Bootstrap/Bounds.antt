-- ===== src/Ingestion/Bootstrap/Bounds.antt =====
-- The budgets of `bootstrap_wallet_history`, kept by each turn of its loop.
use poly.Prelude.{
  ℕ, ◌+◌, ◌*◌, ◌≤◌, ◌<◌, ◌≡◌, refl, max, true, Option, none, some, List, [], ◌∷◌, leb, if_case,
  arith,
}
use poly.Ingestion.Bootstrap.{
  BootstrapSettings, max_trades, max_pages, max_requests, max_offset, Reason, Context, Event,
  persisted, requested, refreshed, Run, persist_progress, has_budget,
}
use poly.Ingestion.Bootstrap.Turn.{
  Turn, going, broken, roll_to, roll, called, reserve, requested_limit,
}

-- The requests of the calls of a trace, where a market to settle takes two.
abbrev pub spent : List Event → ℕ
spent [] = 0
spent (persisted context ∷ es) = spent es
spent (requested limit offset ∷ es) = spent es + 1
spent (refreshed markets ∷ es) = spent es + 2 * markets

-- The requests that the last log entry counts, where a number was counted before the trace.
abbrev pub reserved : ℕ → List Event → ℕ
reserved base [] = base
reserved base (persisted context ∷ es) = context.requests_used
reserved base (requested limit offset ∷ es) = reserved base es
reserved base (refreshed markets ∷ es) = reserved base es

-- A page within the bounds of the venue.
abbrev pub IsPaged : Event → Type 0
IsPaged (requested limit offset) = (1 ≤ limit) × (limit ≤ 500) × (offset + limit ≤ max_offset)
IsPaged (persisted context) = Unit
IsPaged (refreshed markets) = Unit

-- At each moment of a trace the log counts every request that was made, and each page is within the
-- bounds of the venue.
abbrev pub IsPaid : ℕ → List Event → Type 0
IsPaid base [] = Unit
IsPaid base (e ∷ es) = (base + spent (e ∷ es) ≤ reserved base (e ∷ es)) × IsPaged e × IsPaid base es

-- A run that started from the numbers of pages, rows and requests that were used before it.
pub record IsKept {W : Type 0} (c : BootstrapSettings) (pages rows requests : ℕ) (r : Run W)
    : Type 0 where
  pub few_pages : r.pages ≤ max pages (max_pages c)
  pub few_rows : r.rows_fetched ≤ max rows (max_trades c)
  pub few_requests : r.requests ≤ max requests (max_requests c)
  pub few_turns : r.pages_this_run ≤ c.bootstrap_pages_per_run
  pub paid : IsPaid requests r.trace
  pub all_spent : requests + spent r.trace ≡ r.requests
  pub all_reserved : reserved requests r.trace ≡ r.requests
  pub accounted :
      r.rows_fetched ≡ rows + r.inserted_total + r.duplicates_total + r.quarantined_total

-- What holds of the run of a turn, however it ends.
abbrev pub OfTurn : {W : Type 0} → (Run W → Type 0) → Turn W → Type 0
OfTurn P (going r) = P r
OfTurn P (broken reason r) = P r

-- What the loop tests.
pub record IsRoomy {W : Type 0} (c : BootstrapSettings) (r : Run W) : Type 0 where
  pub pages : r.pages < max_pages c
  pub rows : r.rows_fetched < max_trades c
  pub requests : r.requests < max_requests c
  pub turns : r.pages_this_run < c.bootstrap_pages_per_run

pub has_budget-IsRoomy :
    {W : Type 0} (c : BootstrapSettings) (r : Run W) → has_budget c r ≡ true → IsRoomy c r
unfolding has_budget
has_budget-IsRoomy c r h = ground arith

module _ {W : Type 0} (c : BootstrapSettings) (state : Context) (p q n : ℕ) where
  -- A turn that goes on from the new window is ready for its page.
  abbrev pub IsReady : Turn W → Type 0
  IsReady (going r) = IsKept c p q n r × IsRoomy c r × (r.offset < max_offset)
  IsReady (broken reason r) = IsKept c p q n r

  persist-IsKept : (r : Run W) → IsKept c p q n r → IsKept c p q n (persist_progress state r)
  unfolding persist_progress
  persist-IsKept r k = record {
    few_pages = k.few_pages;
    few_rows = k.few_rows;
    few_requests = k.few_requests;
    few_turns = k.few_turns;
    paid = (omega (arith, k.all_spent), tt, k.paid);
    all_spent = k.all_spent;
    all_reserved = refl;
    accounted = k.accounted;
  }

  roll_to-IsReady :
      (o : Option ℕ) (r : Run W) → IsKept c p q n r → IsRoomy c r → IsReady (roll_to state o r)
  unfolding roll_to persist_progress
  roll_to-IsReady none r k room = k
  roll_to-IsReady (some oldest) r k room =
      let moved : Run W = record r { end_ts = oldest; offset = 0 } in
      let k' : IsKept c p q n moved = record {
        few_pages = k.few_pages;
        few_rows = k.few_rows;
        few_requests = k.few_requests;
        few_turns = k.few_turns;
        paid = k.paid;
        all_spent = k.all_spent;
        all_reserved = k.all_reserved;
        accounted = k.accounted;
      } in
      let room' : IsRoomy c (persist_progress state moved) = record {
        pages = room.pages;
        rows = room.rows;
        requests = room.requests;
        turns = room.turns;
      } in
      if_case IsReady (leb r.end_ts oldest) (broken Reason.configured_limit_reached r)
        (going (persist_progress state moved)) (λ _. k)
        (λ _. (persist-IsKept moved k', room', omega arith))

  pub roll-IsReady : (r : Run W) → IsKept c p q n r → IsRoomy c r → IsReady (roll state r)
  unfolding roll
  roll-IsReady r k room =
      if_case IsReady (leb max_offset r.offset) (roll_to state r.window_oldest r) (going r)
        (λ _. roll_to-IsReady r.window_oldest r k room) (λ low. (k, room, ground arith))

  -- A limit within the bounds, on the run that has its slot.
  requested_limit-IsPaged :
      (r : Run W)
      → IsRoomy c r
      → r.offset < max_offset
      → IsPaged (requested (requested_limit c r) r.offset)
        × (requested_limit c r + r.rows_fetched ≤ max_trades c)
  unfolding requested_limit
  requested_limit-IsPaged r room low =
      let h = room.rows in ((omega arith, omega arith, omega arith), omega arith)

  pub called-IsKept :
      (r : Run W) (world : W)
      → IsKept c p q n r
      → IsRoomy c r
      → r.offset < max_offset
      → IsKept c p q n (called state c r world)
        × (requested_limit c (reserve state r) + r.rows_fetched ≤ max_trades c)
  unfolding called reserve persist_progress requested_limit
  called-IsKept r world k room low =
      let (paged, few) = requested_limit-IsPaged r room low in
      (
        record {
          few_pages = omega (arith, room.pages);
          few_rows = k.few_rows;
          few_requests = omega (arith, room.requests);
          few_turns = omega (arith, room.turns);
          paid = (omega (arith, k.all_spent), paged, (omega (arith, k.all_spent), tt, k.paid));
          all_spent = omega (arith, k.all_spent);
          all_reserved = refl;
          accounted = k.accounted;
        },
        few,
      )
