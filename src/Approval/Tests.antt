-- ===== src/Approval/Tests.antt =====
-- Histories of a wallet in backend/src/polycopy/api/routes.py and
-- backend/src/polycopy/scoring/service.py.
use poly.Prelude.{◌≡◌, ◌≢◌, refl, some, none, [], ◌∷◌}
use poly.Execution.Store.{ApprovalState}
use poly.Approval.{
  QueueState, Reviewer, Action, WalletFile, Transition, new_wallet, transition_wallet, Verdict,
  pending_entry, apply_verdict,
}
use poly.Approval.Queue.{
  Consistent, Step, Reachable, Reachable-Consistent, transition_wallet_answers,
}

abbrev test_reviewed : WalletFile
test_reviewed = record {
  approval_state = ApprovalState.pending_review;
  approved_at = none;
  queue = pending_entry ∷ [];
  log = [];
}

abbrev test_approved : WalletFile
test_approved = record {
  approval_state = ApprovalState.approved;
  approved_at = some 20;
  queue =
      record {
        state = QueueState.decided ApprovalState.approved;
        reviewer = some Reviewer.human;
        decided_at = some 20;
      }
      ∷ [];
  log = (Action.approve, ApprovalState.pending_review, ApprovalState.approved) ∷ [];
}

test_verdict : apply_verdict Verdict.pending_review 10 new_wallet ≡ some test_reviewed
unfolding apply_verdict
test_verdict = refl

test_transition :
    transition_wallet Action.approve 20 (some test_reviewed) ≡ Transition.moved test_approved
unfolding transition_wallet
test_transition = refl

test-Reachable : Reachable test_approved
test-Reachable =
    Reachable.step test_reviewed test_approved
      (Reachable.step new_wallet test_reviewed Reachable.added
        (Step.score Verdict.pending_review 10 test_verdict))
      (Step.transition Action.approve 20 test_transition)

Reachable-Consistent_example : Consistent test_approved
Reachable-Consistent_example = Reachable-Consistent test_approved test-Reachable

transition_wallet_answers_example :
    (transition_wallet Action.disable 30 (some test_approved) ≢ Transition.multiple_results)
    × ((g : WalletFile) × (apply_verdict Verdict.score_rejected 30 test_approved ≡ some g))
transition_wallet_answers_example =
    transition_wallet_answers test_approved Action.disable Verdict.score_rejected 30 test-Reachable
