-- ===== src/Approval.antt =====
-- The approval of one wallet: `transition_wallet` of backend/src/polycopy/api/routes.py and
-- `_apply_verdict` of backend/src/polycopy/scoring/service.py, on the wallet's row and its rows of the
-- approval queue. Neither reads or writes the rows of another wallet. Actors are a human or the scorer.
pub mod Queue
mod Tests
use poly.Prelude.{
  ℕ, suc, Bool, true, false, Option, none, some, List, [], ◌∷◌, ◌++◌, ◌==◌, ◌||◌, leb,
  if◌then◌else◌,
}
use poly.Execution.Store.{ApprovalState}

pub data QueueState : Type 0 where
  pending withdrawn : QueueState
  decided : ApprovalState → QueueState

pub data Reviewer : Type 0 where
  human scorer : Reviewer

pub record ApprovalQueueEntry : Type 0 where
  pub state : QueueState
  pub reviewer : Option Reviewer
  pub decided_at : Option ℕ

pub data Action : Type 0 where
  approve reject disable reenable unknown_action : Action

-- The wallet, with the entries of the decision log that its transitions write.
pub record WalletFile : Type 0 where
  pub approval_state : ApprovalState
  pub approved_at : Option ℕ
  pub queue : List ApprovalQueueEntry
  pub log : List (Action × ApprovalState × ApprovalState)

-- The answers of the request; `multiple_results` is the error of `scalar_one_or_none`.
pub data Transition : Type 0 where
  moved : WalletFile → Transition
  unknown not_found multiple_results : Transition
  conflict : ApprovalState → Transition

-- The columns of a wallet that `add_wallet` inserts.
abbrev pub new_wallet : WalletFile
new_wallet = record {
  approval_state = ApprovalState.discovered;
  approved_at = none;
  queue = [];
  log = [];
}

-- `_ALLOWED_TRANSITIONS`: the required state and the target.
pub allowed_transition : Action → Option (ApprovalState × ApprovalState)
allowed_transition Action.approve = some (ApprovalState.pending_review, ApprovalState.approved)
allowed_transition Action.reject = some (ApprovalState.pending_review, ApprovalState.rejected)
allowed_transition Action.disable = some (ApprovalState.approved, ApprovalState.disabled)
allowed_transition Action.reenable = some (ApprovalState.disabled, ApprovalState.approved)
allowed_transition Action.unknown_action = none

pub state_code : ApprovalState → ℕ
state_code ApprovalState.discovered = 0
state_code ApprovalState.pending_review = 1
state_code ApprovalState.approved = 2
state_code ApprovalState.rejected = 3
state_code ApprovalState.disabled = 4

pub is_state : ApprovalState → ApprovalState → Bool
unfolding state_code
is_state a b = state_code a == state_code b

pub is_pending_entry : ApprovalQueueEntry → Bool
is_pending_entry e = elim e.state [ QueueState.pending ↦ true | _ ↦ false ]

pub pending_count : List ApprovalQueueEntry → ℕ
unfolding is_pending_entry
pending_count [] = 0
pending_count (e ∷ es) = if is_pending_entry e then suc (pending_count es) else pending_count es

-- The pending entries, closed with a state, by a reviewer.
pub close_entries : QueueState → Reviewer → ℕ → List ApprovalQueueEntry → List ApprovalQueueEntry
unfolding is_pending_entry
close_entries state who now [] = []
close_entries state who now (e ∷ es) =
    (if is_pending_entry e
      then record { state = state; reviewer = some who; decided_at = some now }
      else e)
    ∷ close_entries state who now es

-- The wallet's row after the conditional update.
pub move_wallet : ApprovalState → ℕ → WalletFile → WalletFile
unfolding is_state
move_wallet target now f = record f {
  approval_state = target;
  approved_at = if is_state target ApprovalState.approved then some now else f.approved_at;
}

-- `transition_wallet`: none is a wallet that does not exist.
pub transition_wallet : Action → ℕ → Option WalletFile → Transition
unfolding allowed_transition is_state move_wallet pending_count close_entries
transition_wallet action now wallet = elim (allowed_transition action) [
  | none ↦ Transition.unknown
  | some (required, target) ↦ elim wallet [
    | none ↦ Transition.not_found
    | some f ↦
        if is_state f.approval_state required
        then (if leb (pending_count f.queue) 1
            then Transition.moved (record (move_wallet target now f) {
              queue = close_entries (QueueState.decided target) Reviewer.human now f.queue;
              log = f.log ++ ((action, required, target) ∷ []);
            })
            else Transition.multiple_results)
        else Transition.conflict f.approval_state
  ]
]

pub data Verdict : Type 0 where
  pending_review discovered score_rejected insufficient_history : Verdict

abbrev pub pending_entry : ApprovalQueueEntry
pending_entry = record { state = QueueState.pending; reviewer = none; decided_at = none }

pub is_review : Verdict → Bool
is_review v = elim v [ Verdict.pending_review ↦ true | _ ↦ false ]

-- `_apply_verdict`: none is the error of `scalar_one_or_none`.
pub apply_verdict : Verdict → ℕ → WalletFile → Option WalletFile
unfolding is_state pending_count close_entries is_review
apply_verdict v now f =
    let review = is_state f.approval_state ApprovalState.pending_review in
    if is_state f.approval_state ApprovalState.discovered || review
    then (if is_review v
        then (if leb (pending_count f.queue) 1
            then some (record f {
              approval_state = ApprovalState.pending_review;
              queue =
                  if pending_count f.queue == 0 then f.queue ++ (pending_entry ∷ []) else f.queue;
            })
            else none)
        else if review
        then some (record f {
          approval_state = ApprovalState.discovered;
          queue = close_entries QueueState.withdrawn Reviewer.scorer now f.queue;
        })
        else some f)
    else some f
