-- ===== src/Execution/Settled.antt =====
-- What `settle_paper_positions` of backend/src/polycopy/execution/service.py leaves.
use poly.Prelude.{
  ℕ, ◌≡◌, refl, Option, none, some, List, [], ◌∷◌, ◌++◌, arith, All, map, ◌∙◌, sym, ap, subst,
}
use poly.Decimals.{Decimals}
use poly.Execution.Store.{Position, Settlement, Store, Settings, is_open}
use poly.Execution.Settle.{
  due, settle_position, Settling, settle_one, settle_rows, settle_paper_positions,
}

-- What the code makes of a position.
unfoldable pub settled_version : ℕ → ℕ → List Settlement → Position → Position
unfolding due settle_position
settled_version one now settlements p = elim (due settlements p) [
  | none ↦ p
  | some t ↦ settle_position one now t p
]

append-snoc :
    {A : Type 0} (xs : List A) (x : A) (ys : List A) → (xs ++ (x ∷ [])) ++ ys ≡ xs ++ (x ∷ ys)
append-snoc [] x ys = refl
append-snoc (y ∷ xs) x ys = ap (λ zs. y ∷ zs) (append-snoc xs x ys)

append-nil : {A : Type 0} (xs : List A) → xs ++ [] ≡ xs
append-nil [] = refl
append-nil (x ∷ xs) = ap (λ zs. x ∷ zs) (append-nil xs)

abbrev pub version : ℕ → ℕ → Position → Option Settlement → Position
version one now p none = p
version one now p (some t) = settle_position one now t p

settle_one-positions :
    (d : Decimals) (st : Settings) (now : ℕ) (p : Position) (o : Option Settlement) (r : Settling)
    → (settle_one d st now p o r).positions ≡ r.positions ++ (version d.one now p o ∷ [])
unfolding settle_one
settle_one-positions d st now p none r = refl
settle_one-positions d st now p (some t) r = refl

settle_rows-positions :
    (d : Decimals) (st : Settings) (now : ℕ) (settlements : List Settlement) (ps : List Position)
    (r : Settling)
    → (settle_rows d st now settlements ps r).positions
      ≡ r.positions ++ map (settled_version d.one now settlements) ps
unfolding settle_rows settled_version
settle_rows-positions d st now settlements [] r = sym (append-nil r.positions)
settle_rows-positions d st now settlements (p ∷ ps) r =
    settle_rows-positions d st now settlements ps (settle_one d st now p (due settlements p) r)
    ∙ ap (λ qs. qs ++ map (settled_version d.one now settlements) ps)
        (settle_one-positions d st now p (due settlements p) r)
    ∙ append-snoc r.positions (settled_version d.one now settlements p)
        (map (settled_version d.one now settlements) ps)

pub settle_paper_positions-versions :
    (d : Decimals) (st : Settings) (now : ℕ) (db : Store)
    → (settle_paper_positions d st now db).0.positions
      ≡ map (settled_version d.one now db.settlements) db.positions
unfolding settle_paper_positions
settle_paper_positions-versions d st now db =
    settle_rows-positions d st now db.settlements db.positions _

-- A settled position is never due again, whatever settlements there are.
settled_version-due :
    (one now : ℕ) (settlements : List Settlement) (p : Position)
    → due settlements (settled_version one now settlements p) ≡ none
unfolding settled_version due settle_position is_open
settled_version-due one now settlements p = ground arith

settle_rows-none :
    (d : Decimals) (st : Settings) (later : ℕ) (settlements : List Settlement) (ps : List Position)
    (r : Settling)
    → All (λ p. due settlements p ≡ none) ps
    → settle_rows d st later settlements ps r ≡ record r { positions = r.positions ++ ps }
unfolding settle_rows settle_one
settle_rows-none d st later settlements [] r h =
    ap (λ (ps : List Position). record r { positions = ps }) (sym (append-nil r.positions))
settle_rows-none d st later settlements (p ∷ ps) r h =
    ap (λ o. settle_rows d st later settlements ps (settle_one d st later p o r)) h.0
    ∙ settle_rows-none d st later settlements ps (settle_one d st later p none r) h.1
    ∙ ap (λ (qs : List Position). record r { positions = qs }) (append-snoc r.positions p ps)

none-due :
    (one now : ℕ) (settlements : List Settlement) (ps : List Position)
    → All (λ p. due settlements p ≡ none) (map (settled_version one now settlements) ps)
none-due one now settlements [] = tt
none-due one now settlements (p ∷ ps) =
    (settled_version-due one now settlements p, none-due one now settlements ps)

-- A second settlement, at any later time, changes nothing: no position is settled or paid twice.
pub settle_twice :
    (d : Decimals) (st : Settings) (now later : ℕ) (db : Store)
    → let db' = (settle_paper_positions d st now db).0 in
      settle_paper_positions d st later db' ≡ (db', record { settled = 0; winners = 0; losers = 0 })
unfolding settle_paper_positions settle_one
settle_twice d st now later db =
    let db' = (settle_paper_positions d st now db).0 in
    let over : All (λ p. due db.settlements p ≡ none) db'.positions =
      subst (All (λ p. due db.settlements p ≡ none))
        (sym (settle_paper_positions-versions d st now db))
        (none-due d.one now db.settlements db.positions) in
    ap
      (λ (r : Settling).
        (record db' { positions = r.positions; bankroll = r.bankroll; log = r.log }, r.stats))
      (settle_rows-none d st later db.settlements db'.positions
        (record {
          positions = [];
          bankroll = db'.bankroll;
          log = db'.log;
          stats = record { settled = 0; winners = 0; losers = 0 };
        })
        over)
