-- ===== src/Copilot/Policy.antt =====
-- `ToolPolicyRegistry` of backend/ai_copilot/application/operator_copilot_policy.py.
-- `classify_calls` reads `call["id"]`: `none` is the `KeyError` of a call with no id.
mod Table
pub mod Laws
pub mod Parity
pub use Table.*
use insta.Prelude.{
  String, str_eq, Bool, true, false, not, List, [], ◌∷◌, Option, none, some, any, all, keep, map,
  if◌then◌else◌,
}
use insta.Prelude.Dict
use insta.Prelude.Dict.{Dict}
use insta.Copilot.Values.{ToolCall}

abbrev pub is_read_only : ToolPolicy → Bool
is_read_only read_only = true
is_read_only _ = false

abbrev pub is_write_sensitive : ToolPolicy → Bool
is_write_sensitive write_sensitive = true
is_write_sensitive _ = false

abbrev pub is_blocked : ToolPolicy → Bool
is_blocked blocked = true
is_blocked _ = false

abbrev or_unknown : Option ToolClassification → ToolClassification
or_unknown none = unknown_tool_block
or_unknown (some c) = c

unfoldable pub classify : String → ToolClassification
classify tool_name = or_unknown (Dict.get classifications tool_name)

abbrev pub policy_of : ToolCall → ToolPolicy
policy_of call = (classify call.name).policy

-- the dict comprehension, from the entries so far
unfoldable pub classify_calls_from : Dict ToolPolicy → List ToolCall → Option (Dict ToolPolicy)
classify_calls_from flags [] = some flags
classify_calls_from flags (call ∷ rest) = elim call.id [
  | none ↦ none
  | some id ↦ classify_calls_from (Dict.put flags id (policy_of call)) rest
]

unfoldable pub classify_calls : List ToolCall → Option (Dict ToolPolicy)
unfolding classify_calls_from
classify_calls calls = classify_calls_from [] calls

unfoldable pub has_blocked : List ToolCall → Bool
has_blocked = any (λ call. is_blocked (policy_of call))

unfoldable pub has_write_sensitive : List ToolCall → Bool
has_write_sensitive = any (λ call. is_write_sensitive (policy_of call))

unfoldable pub all_read_only : List ToolCall → Bool
all_read_only = all (λ call. is_read_only (policy_of call))

unfoldable pub filter_executable : List ToolCall → List ToolCall
filter_executable = keep (λ call. not (is_blocked (policy_of call)))
