-- ===== src/Settlements/Unique.antt =====
-- `refresh_settlements` of backend/src/polycopy/accounting/settlements.py settles a market once.
use poly.Prelude.{
  ℕ, zero, suc, ◌≡◌, ◌≢◌, refl, sym, ◌⊎◌, subst, inl, inr, Bool, false, Option, none, some, List,
  [], ◌∷◌, ◌++◌, if_case, filter, take, All, arith,
}
use poly.Execution.Store.{Settlement}
use poly.Settlements.{
  GammaMarket, Detection, MarketRow, Lookup, Refresh, Round, mark_checked, lookup_failed,
  settle_market, check_market, detect_winning_outcome,
}
use poly.Settlements.Loop.{
  is_settled, is_due, Refreshed, refreshed, raised, after_round, with_market, check_markets,
  refresh_settlements,
}

-- No settlement is of the market.
abbrev IsFree : ℕ → List Settlement → Type 0
IsFree market = All (λ (s : Settlement). s.market_id ≢ market)

-- No two settlements are of one market.
abbrev pub IsOnce : List Settlement → Type 0
IsOnce [] = Unit
IsOnce (s ∷ ss) = IsFree s.market_id ss × IsOnce ss

-- No two markets have one number, and none is settled.
abbrev IsOtherThan : ℕ → List MarketRow → Type 0
IsOtherThan market = All (λ (m : MarketRow). m.id ≢ market)

abbrev pub AreDistinct : List MarketRow → Type 0
AreDistinct [] = Unit
AreDistinct (m ∷ ms) = IsOtherThan m.id ms × AreDistinct ms

abbrev AreFree : List MarketRow → List Settlement → Type 0
AreFree ms ss = All (λ (m : MarketRow). IsFree m.id ss) ms

snoc-All :
    {A : Type 0} (P : A → Type 0) (xs : List A) (y : A) → All P xs → P y → All P (xs ++ (y ∷ []))
snoc-All P [] y h p = (p, tt)
snoc-All P (x ∷ xs) y h p = (h.0, snoc-All P xs y h.1 p)

IsOnce-snoc :
    (ss : List Settlement) (s : Settlement)
    → IsOnce ss
    → IsFree s.market_id ss
    → IsOnce (ss ++ (s ∷ []))
IsOnce-snoc [] s h f = (tt, tt)
IsOnce-snoc (t ∷ ts) s h f = (
  snoc-All (λ (u : Settlement). u.market_id ≢ t.market_id) ts s h.0 (λ e. f.0 (sym e)),
  IsOnce-snoc ts s h.1 f.1,
)

AreFree-snoc :
    (ms : List MarketRow) (ss : List Settlement) (s : Settlement)
    → AreFree ms ss
    → IsOtherThan s.market_id ms
    → AreFree ms (ss ++ (s ∷ []))
AreFree-snoc [] ss s h o = tt
AreFree-snoc (m ∷ ms) ss s h o = (
  snoc-All (λ (u : Settlement). u.market_id ≢ m.id) ss s h.0 (λ e. o.0 (sym e)),
  AreFree-snoc ms ss s h.1 o.1,
)

-- What a round adds to the settlements: nothing, or one of its market.
abbrev Adds : List Settlement → ℕ → Refresh → Type 0
Adds old market r =
    (r.settlements ≡ old)
    ⊎ (s : Settlement) × (s.market_id ≡ market) × (r.settlements ≡ old ++ (s ∷ []))

abbrev OfRound : (Refresh → Type 0) → Round → Type 0
OfRound P (Round.next r) = P r
OfRound P (Round.stop r) = P r
OfRound P Round.raised = Unit

settle_market-Adds :
    (d : Detection) (g : GammaMarket) (r : Refresh)
    → OfRound (Adds r.settlements r.market.id) (settle_market d g r)
unfolding settle_market
settle_market-Adds Detection.raised g r = tt
settle_market-Adds Detection.undecided g r = inl refl
settle_market-Adds (Detection.winner o) g r = inr (_, refl, refl)

lookup_failed-Adds :
    (now : ℕ) (retry : Option ℕ) (r : Refresh)
    → OfRound (Adds r.settlements r.market.id) (lookup_failed now retry r)
unfolding lookup_failed
lookup_failed-Adds now none r = inl refl
lookup_failed-Adds now (some seconds) r = inl refl

check_market-Adds :
    (one now : ℕ) (answer : Lookup) (r : Refresh)
    → OfRound (Adds r.settlements r.market.id) (check_market one now answer r)
unfolding check_market mark_checked
check_market-Adds one now (Lookup.failed retry) r = lookup_failed-Adds now retry _
check_market-Adds one now (Lookup.answered none used) r = inl refl
check_market-Adds one now (Lookup.answered (some g) used) r =
    settle_market-Adds (detect_winning_outcome one g) g _

-- What holds of the settlements that the loop leaves.
abbrev pub OfRefreshed : (List Settlement → Type 0) → Refreshed → Type 0
OfRefreshed P (refreshed ms r) = P r.settlements
OfRefreshed P (raised ms r) = P r.settlements

with_market-IsOnce :
    (m : MarketRow) (x : Refreshed) → OfRefreshed IsOnce x → OfRefreshed IsOnce (with_market m x)
with_market-IsOnce m (refreshed ms r) h = h
with_market-IsOnce m (raised ms r) h = h

after_round-IsOnce :
    (before : Refresh) (again : MarketRow → Refresh → Refreshed) (P : Refresh → Type 0) (x : Round)
    → IsOnce before.settlements
    → OfRound P x
    → ((r : Refresh) → P r → IsOnce r.settlements)
    → ((m : MarketRow) (r : Refresh) → P r → OfRefreshed IsOnce (again m r))
    → OfRefreshed IsOnce (after_round before again x)
unfolding after_round
after_round-IsOnce before again P (Round.next r) h p once next = next r.market r p
after_round-IsOnce before again P (Round.stop r) h p once next = once r p
after_round-IsOnce before again P Round.raised h p once next = h

Adds-IsOnce :
    (old : List Settlement) (market : ℕ) (r : Refresh)
    → IsOnce old
    → IsFree market old
    → Adds old market r
    → IsOnce r.settlements
Adds-IsOnce old market r h f (inl same) = subst IsOnce (sym same) h
Adds-IsOnce old market r h f (inr (s, name, more)) =
    subst IsOnce (sym more) (IsOnce-snoc old s h (subst (λ k. IsFree k old) (sym name) f))

Adds-AreFree :
    (old : List Settlement) (market : ℕ) (r : Refresh) (ms : List MarketRow)
    → AreFree ms old
    → IsOtherThan market ms
    → Adds old market r
    → AreFree ms r.settlements
Adds-AreFree old market r ms h o (inl same) = subst (AreFree ms) (sym same) h
Adds-AreFree old market r ms h o (inr (s, name, more)) =
    subst (AreFree ms) (sym more)
      (AreFree-snoc ms old s h (subst (λ k. IsOtherThan k ms) (sym name) o))

check_markets-IsOnce :
    (one now : ℕ) (answers : MarketRow → Lookup) (ms : List MarketRow) (r : Refresh)
    → IsOnce r.settlements
    → AreDistinct ms
    → AreFree ms r.settlements
    → OfRefreshed IsOnce (check_markets one now answers ms r)
unfolding check_markets
check_markets-IsOnce one now answers [] r h d f = h
check_markets-IsOnce one now answers (m ∷ ms) r h d f =
    after_round-IsOnce r (λ m' r'. with_market m' (check_markets one now answers ms r'))
      (Adds r.settlements m.id) (check_market one now (answers m) (record r { market = m })) h
      (check_market-Adds one now (answers m) (record r { market = m }))
      (λ r' added. Adds-IsOnce r.settlements m.id r' h f.0 added)
      (λ m' r' added. with_market-IsOnce m' (check_markets one now answers ms r') (
        check_markets-IsOnce one now answers ms r' (Adds-IsOnce r.settlements m.id r' h f.0 added)
          d.1 (Adds-AreFree r.settlements m.id r' ms f.1 d.0 added)))

filter-IsOtherThan :
    (p : MarketRow → Bool) (k : ℕ) (ms : List MarketRow)
    → IsOtherThan k ms
    → IsOtherThan k (filter p ms)
filter-IsOtherThan p k [] h = tt
filter-IsOtherThan p k (m ∷ ms) h =
    if_case (IsOtherThan k) (p m) (m ∷ filter p ms) (filter p ms)
      (λ _. (h.0, filter-IsOtherThan p k ms h.1)) (λ _. filter-IsOtherThan p k ms h.1)

filter-AreDistinct :
    (p : MarketRow → Bool) (ms : List MarketRow) → AreDistinct ms → AreDistinct (filter p ms)
filter-AreDistinct p [] h = tt
filter-AreDistinct p (m ∷ ms) h =
    if_case AreDistinct (p m) (m ∷ filter p ms) (filter p ms)
      (λ _. (filter-IsOtherThan p m.id ms h.0, filter-AreDistinct p ms h.1))
      (λ _. filter-AreDistinct p ms h.1)

take-All : (P : MarketRow → Type 0) (n : ℕ) (ms : List MarketRow) → All P ms → All P (take n ms)
take-All P zero ms h = tt
take-All P (suc n) [] h = tt
take-All P (suc n) (m ∷ ms) h = (h.0, take-All P n ms h.1)

take-AreDistinct : (n : ℕ) (ms : List MarketRow) → AreDistinct ms → AreDistinct (take n ms)
take-AreDistinct zero ms h = tt
take-AreDistinct (suc n) [] h = tt
take-AreDistinct (suc n) (m ∷ ms) h =
    (take-All (λ u. u.id ≢ m.id) n ms h.0, take-AreDistinct n ms h.1)

is_settled-IsFree : (k : ℕ) (ss : List Settlement) → is_settled ss k ≡ false → IsFree k ss
unfolding is_settled
is_settled-IsFree k [] h = tt
is_settled-IsFree k (s ∷ ss) h = (ground arith, is_settled-IsFree k ss (ground arith))

filter-AreFree :
    (now : ℕ) (ss : List Settlement) (ms : List MarketRow) → AreFree (filter (is_due now ss) ms) ss
unfolding is_due
filter-AreFree now ss [] = tt
filter-AreFree now ss (m ∷ ms) =
    if_case (λ (us : List MarketRow). AreFree us ss) (is_due now ss m)
      (m ∷ filter (is_due now ss) ms) (filter (is_due now ss) ms)
      (λ due. (is_settled-IsFree m.id ss (ground arith), filter-AreFree now ss ms))
      (λ _. filter-AreFree now ss ms)

-- A refresh never writes a second settlement of a market: if no market had two before and the markets
-- of the database have different numbers, then whatever Gamma answers, and wherever the loop stops or
-- raises, no market has two in what it has committed.
pub refresh_settlements-IsOnce :
    (one now : ℕ) (backoff : Bool) (limit : Option ℕ) (answers : MarketRow → Lookup)
    (markets : List MarketRow) (r : Refresh)
    → IsOnce r.settlements
    → AreDistinct markets
    → OfRefreshed IsOnce (refresh_settlements one now backoff limit answers markets r)
unfolding refresh_settlements
refresh_settlements-IsOnce one now backoff none answers markets r h d =
    let due = filter (is_due now r.settlements) markets in
    if_case (OfRefreshed IsOnce) backoff (refreshed [] r) (check_markets one now answers due r)
      (λ _. h)
      (λ _.
        check_markets-IsOnce one now answers due r h
          (filter-AreDistinct (is_due now r.settlements) markets d)
          (filter-AreFree now r.settlements markets))
refresh_settlements-IsOnce one now backoff (some n) answers markets r h d =
    let due = filter (is_due now r.settlements) markets in
    if_case (OfRefreshed IsOnce) backoff (refreshed [] r)
      (check_markets one now answers (take n due) r) (λ _. h)
      (λ _.
        check_markets-IsOnce one now answers (take n due) r h
          (take-AreDistinct n due (filter-AreDistinct (is_due now r.settlements) markets d))
          (take-All (λ m. IsFree m.id r.settlements) n due
            (filter-AreFree now r.settlements markets)))
