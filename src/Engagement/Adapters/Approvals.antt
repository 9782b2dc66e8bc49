-- ===== src/Engagement/Adapters/Approvals.antt =====
-- `InMemoryApprovalAdapter` of backend/ai_copilot/adapters/approval_adapter.py. The lock covers each
-- method; the new id and the time are arguments, and `none` is the `ValueError`.
use insta.Prelude.{ℕ, String, str_eq, Bool, Option, none, some, List, keep, map, if◌then◌else◌}
use insta.Prelude.Dict
use insta.Prelude.Dict.{Dict}
use insta.Engagement.State.{ProposedAction}

pub record ApprovalRecord : Type 0 where
  pub approval_id : String
  pub status : String
  pub requested_at : ℕ
  pub approved_at : Option ℕ
  pub approver_notes : String
  pub action : String × String

abbrev pub Approvals : Type 0
Approvals = Dict ApprovalRecord

unfoldable pub submit_for_approval : Approvals → String → ℕ → ProposedAction → Approvals
submit_for_approval approvals approval_id now action = Dict.put approvals approval_id (record {
  approval_id = approval_id;
  status = "pending";
  requested_at = now;
  approved_at = none;
  approver_notes = "";
  action = (action.action_type, action.target_id);
})

unfoldable pub get_approval_status : Approvals → String → Option ApprovalRecord
get_approval_status approvals approval_id = Dict.get approvals approval_id

abbrev pub decided_as : Bool → String → ℕ → ApprovalRecord → ApprovalRecord
decided_as approved notes now r = record r {
  status = if approved then "approved" else "rejected";
  approved_at = some now;
  approver_notes = notes;
}

unfoldable pub record_approval_decision :
    Approvals → String → Bool → String → ℕ → Option (Approvals × ApprovalRecord)
record_approval_decision approvals approval_id approved notes now =
    elim (Dict.get approvals approval_id) [
      | none ↦ none
      | some r ↦
          let decided = decided_as approved notes now r in
          some (Dict.put approvals approval_id decided, decided)
    ]

abbrev pub is_pending : ApprovalRecord → Bool
is_pending r = str_eq r.status "pending"

unfoldable pub get_all_pending : Approvals → List ApprovalRecord
get_all_pending approvals = keep is_pending (map (λ e. e.1) approvals)
