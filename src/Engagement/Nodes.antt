-- ===== src/Engagement/Nodes.antt =====
-- The nodes of the smart engagement workflow, by stage, as functions of the state and the world.
pub mod Context
pub mod Discovery
pub mod DraftRisk
pub mod Approval
pub mod Outcome
pub mod Choice
pub mod Decisions
use insta.Prelude.{String, List, [], ◌∷◌, ◌++◌}
use insta.Engagement.State.{AuditEvent, State, World}

abbrev pub event : String → String → AuditEvent
event event_type node_name = record { event_type = event_type; node_name = node_name }

-- `_emit`
abbrev pub emit : AuditEvent → World → World
emit e w = record w { logged = w.logged ++ (e ∷ []) }

-- The reducer of the audit trail appends what a node returns.
abbrev pub append_audit_events : List AuditEvent → State → State
append_audit_events new s = record s { audit_trail = s.audit_trail ++ new }

-- An event that a node emits and returns.
abbrev pub note : String → String → State → World → State × World
note event_type node_name s w =
    (append_audit_events (event event_type node_name ∷ []) s, emit (event event_type node_name) w)
