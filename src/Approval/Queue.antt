-- ===== src/Approval/Queue.antt =====
-- The approval state machine of backend/src/polycopy/api/routes.py and
-- backend/src/polycopy/scoring/service.py, over any history of a wallet.
use poly.Prelude.{
  ℕ, ◌+◌, ◌≡◌, ◌≢◌, refl, true, false, Option, none, some, List, [], ◌∷◌, ◌++◌, arith, leb,
  Option-cases, inl, inr, ◌⊎◌,
}
use poly.Execution.Store.{ApprovalState}
use poly.Approval.{
  QueueState, Reviewer, ApprovalQueueEntry, Action, WalletFile, Transition, new_wallet,
  allowed_transition, state_code, is_state, is_pending_entry, pending_count, close_entries,
  move_wallet, transition_wallet, Verdict, pending_entry, is_review, apply_verdict,
}

-- The pending queue entries of a wallet in a state.
abbrev queued : ApprovalState → ℕ
queued ApprovalState.pending_review = 1
queued _ = 0

abbrev HasBoundary : ApprovalState → Option ℕ → Type 0
HasBoundary ApprovalState.approved none = ⊥
HasBoundary _ _ = Unit

-- A wallet under review has exactly one pending entry and any other none, and an approved wallet has
-- its boundary.
pub record Consistent (f : WalletFile) : Type 0 where
  pub entries : pending_count f.queue ≡ queued f.approval_state
  pub boundary : HasBoundary f.approval_state f.approved_at

close_entries-none :
    (state : QueueState) (who : Reviewer) (now : ℕ) (es : List ApprovalQueueEntry)
    → is_pending_entry (record { state = state; reviewer = some who; decided_at = some now })
      ≡ false
    → pending_count (close_entries state who now es) ≡ 0
unfolding pending_count close_entries is_pending_entry
close_entries-none state who now [] h = refl
close_entries-none state who now (e ∷ es) h = ground (arith, close_entries-none state who now es h)

pending_count-snoc :
    (es : List ApprovalQueueEntry)
    → pending_count (es ++ (pending_entry ∷ [])) ≡ pending_count es + 1
unfolding pending_count is_pending_entry
pending_count-snoc [] = refl
pending_count-snoc (e ∷ es) = ground (arith, pending_count-snoc es)

-- One step of a wallet's history: an answered transition, or a routed verdict.
pub data Step : WalletFile → WalletFile → Type 0 where
  transition :
      (action : Action) (now : ℕ) {f g : WalletFile}
      → transition_wallet action now (some f) ≡ Transition.moved g
      → Step f g
  score : (v : Verdict) (now : ℕ) {f g : WalletFile} → apply_verdict v now f ≡ some g → Step f g

-- The histories that start where a wallet is added.
pub data Reachable : WalletFile → Type 0 where
  added : Reachable new_wallet
  step : (f g : WalletFile) → Reachable f → Step f g → Reachable g

transition_wallet-Consistent :
    (action : Action) (now : ℕ) (f g : WalletFile)
    → transition_wallet action now (some f) ≡ Transition.moved g
    → Consistent g
unfolding transition_wallet allowed_transition move_wallet is_state state_code is_pending_entry
transition_wallet-Consistent Action.approve now f g e =
    let closed =
      close_entries-none (QueueState.decided ApprovalState.approved) Reviewer.human now f.queue
        refl in
    record { entries = ground arith; boundary = ground arith }
transition_wallet-Consistent Action.reject now f g e =
    let closed =
      close_entries-none (QueueState.decided ApprovalState.rejected) Reviewer.human now f.queue
        refl in
    record { entries = ground arith; boundary = ground arith }
transition_wallet-Consistent Action.disable now f g e =
    let closed =
      close_entries-none (QueueState.decided ApprovalState.disabled) Reviewer.human now f.queue
        refl in
    record { entries = ground arith; boundary = ground arith }
transition_wallet-Consistent Action.reenable now f g e =
    let closed =
      close_entries-none (QueueState.decided ApprovalState.approved) Reviewer.human now f.queue
        refl in
    record { entries = ground arith; boundary = ground arith }
transition_wallet-Consistent Action.unknown_action now f g e = ground arith

apply_verdict-Consistent :
    (v : Verdict) (now : ℕ) (f g : WalletFile)
    → Consistent f
    → apply_verdict v now f ≡ some g
    → Consistent g
unfolding apply_verdict is_state state_code is_review is_pending_entry
apply_verdict-Consistent v now f g c e =
    let closed = close_entries-none QueueState.withdrawn Reviewer.scorer now f.queue refl in
    let more = pending_count-snoc f.queue in
    let entries = c.entries in
    let boundary = c.boundary in record { entries = ground arith; boundary = ground arith }

Step-Consistent : (f g : WalletFile) → Consistent f → Step f g → Consistent g
Step-Consistent f g c (Step.transition action now e) = transition_wallet-Consistent action now f g e
Step-Consistent f g c (Step.score v now e) = apply_verdict-Consistent v now f g c e

new_wallet-Consistent : Consistent new_wallet
unfolding pending_count
new_wallet-Consistent = record { entries = refl; boundary = tt }

-- After any history of human decisions and machine verdicts, a wallet under review has exactly one
-- pending entry in the queue, any other wallet has none, and an approved wallet has the time of its approval.
pub Reachable-Consistent : (f : WalletFile) → Reachable f → Consistent f
Reachable-Consistent f Reachable.added = new_wallet-Consistent
Reachable-Consistent g (Reachable.step f _ r s) = Step-Consistent f g (Reachable-Consistent f r) s

one_entry : (s : ApprovalState) → leb (queued s) 1 ≡ true
one_entry s = ground arith

leb-queued :
    (f : WalletFile)
    → pending_count f.queue ≡ queued f.approval_state
    → leb (pending_count f.queue) 1 ≡ true
leb-queued f h = let few = one_entry f.approval_state in ground arith

apply_verdict_not_none :
    (v : Verdict) (now : ℕ) (f : WalletFile)
    → leb (pending_count f.queue) 1 ≡ true
    → ¬ (apply_verdict v now f ≡ none)
unfolding apply_verdict
apply_verdict_not_none v now f h e = ground arith

apply_verdict-some :
    (v : Verdict) (now : ℕ) (f : WalletFile)
    → leb (pending_count f.queue) 1 ≡ true
    → (g : WalletFile) × (apply_verdict v now f ≡ some g)
apply_verdict-some v now f h = elim (Option-cases (apply_verdict v now f)) [
  | inl e ↦ absurd (apply_verdict_not_none v now f h e)
  | inr found ↦ found
]

-- Neither a decision nor a verdict ever meets two pending entries of one wallet, so the lookup of the
-- one entry does not raise, after any history of the wallet.
pub transition_wallet_answers :
    (f : WalletFile) (action : Action) (v : Verdict) (now : ℕ)
    → Reachable f
    → (transition_wallet action now (some f) ≢ Transition.multiple_results)
      × ((g : WalletFile) × (apply_verdict v now f ≡ some g))
unfolding transition_wallet
transition_wallet_answers f action v now r =
    let entries = (Reachable-Consistent f r).entries in
    let few = one_entry f.approval_state in
    let answers = apply_verdict-some v now f (leb-queued f entries) in (λ e. ground arith, answers)

-- A verdict of the scorer never approves, rejects or disables a wallet and never changes one that a
-- human has decided on, and it never moves the boundary of an approval.
pub apply_verdict_human :
    (v : Verdict) (now : ℕ) (f g : WalletFile)
    → apply_verdict v now f ≡ some g
    → ((f ≡ g)
        ⊎ (g.approval_state ≡ ApprovalState.pending_review)
        ⊎ (g.approval_state ≡ ApprovalState.discovered))
      × (f.approved_at ≡ g.approved_at)
unfolding apply_verdict
apply_verdict_human v now f g e = ground arith
