-- ===== src/Copilot/Guards.antt =====
-- `_sanitize_proposed_tool_calls` and its helpers, of
-- backend/ai_copilot/application/graphs/operator_copilot/planning_guards.py: proposed calls that name
-- an unknown tool, miss a required argument, or hold a placeholder are dropped, with the reason.
pub mod Laws
pub mod Partition
use insta.Prelude.{
  ℕ, String, str_eq, Bool, true, false, not, ◌&&◌, ◌||◌, Option, none, some, List, [], ◌∷◌, keep,
  any, if◌then◌else◌,
}
use insta.Prelude.Text.{codes, strip, lower, is_empty, startswith, endswith, contains}
use insta.Prelude.StringSet
use insta.Copilot.Values.{
  Value, null, boolean, number, text, array, object, Items, nil, item, Fields, end, member, RawCall,
  ToolCall, field_names,
}

-- A tool's schema: its name, the keys of its properties and the required keys.
pub record Schema : Type 0 where
  pub name : String
  pub properties : List String
  pub required : List String

pub data DropReason : Type 0 where
  unknown_tool arguments_must_be_object placeholder_arguments : DropReason
  missing_required_arguments unsupported_argument_keys : List String → DropReason

pub record Dropped : Type 0 where
  pub id : Option String
  pub name : Option String
  pub reason : DropReason

-- `schema_by_name.get(name)`: a later schema of the same name replaces an earlier one, and schemas
-- with an empty name are not in the dict.
unfoldable pub find_schema : List Schema → String → Option Schema
find_schema [] name = none
find_schema (s ∷ rest) name =
    let later = find_schema rest name in
    elim later [
      | some t ↦ some t
      | none ↦ if str_eq s.name name && not (str_eq name "") then some s else none
    ]

unfoldable pub schema_of : List Schema → Option String → Option Schema
schema_of schemas none = none
schema_of schemas (some name) = find_schema schemas name

-- `args.get(key)`
unfoldable pub get_field : Fields → String → Option Value
get_field end key = none
get_field (member k v fs) key = if str_eq k key then some v else get_field fs key

-- `{key: value for key, value in raw_args.items() if key in allowed_keys}`
unfoldable pub only_keys : List String → Fields → Fields
only_keys allowed end = end
only_keys allowed (member k v fs) =
    let rest = only_keys allowed fs in
    elim (StringSet.member allowed k) [ true ↦ member k v rest | false ↦ rest ]

unfoldable pub is_missing_required_argument : Option Value → Bool
is_missing_required_argument none = true
is_missing_required_argument (some null) = true
is_missing_required_argument (some (text s)) = is_empty (strip (codes s))
is_missing_required_argument (some (array nil)) = true
is_missing_required_argument (some (object end)) = true
is_missing_required_argument (some v) = false

unfoldable pub is_placeholder_text : String → Bool
is_placeholder_text s =
    let normalized = lower (strip (codes s)) in
    if is_empty normalized
    then false
    else contains (codes "placeholder") normalized
      || startswith normalized (codes "result_of_")
      || contains (codes "_from_list") normalized
      || (startswith normalized (codes "<") && endswith normalized (codes ">"))

unfoldable mutual
  pub contains_placeholder_reference : Value → Bool
  contains_placeholder_reference (text s) = is_placeholder_text s
  contains_placeholder_reference (array xs) = any_item_placeholder xs
  contains_placeholder_reference (object fs) = any_field_placeholder fs
  contains_placeholder_reference null = false
  contains_placeholder_reference (boolean b) = false
  contains_placeholder_reference (number n) = false

  pub any_item_placeholder : Items → Bool
  any_item_placeholder nil = false
  any_item_placeholder (item v xs) = contains_placeholder_reference v || any_item_placeholder xs

  pub any_field_placeholder : Fields → Bool
  any_field_placeholder end = false
  any_field_placeholder (member k v fs) =
      contains_placeholder_reference v || any_field_placeholder fs

abbrev pub is_nil {ℓ} : {A : Type ℓ} → List A → Bool
is_nil [] = true
is_nil (x ∷ xs) = false

abbrev pub is_end : Fields → Bool
is_end end = true
is_end (member k v fs) = false

-- `sanitized_args`: the filter is made only where the schema names properties.
unfoldable pub sanitized_args : Schema → Fields → Fields
sanitized_args s raw = if is_nil s.properties then raw else only_keys s.properties raw

unfoldable pub unknown_keys : Schema → Fields → List String
unknown_keys s raw =
    if is_nil s.properties
    then []
    else StringSet.sorted_set (keep (λ k. not (StringSet.member s.properties k)) (field_names raw))

unfoldable pub missing_required : Schema → Fields → List String
missing_required s args = keep (λ key. is_missing_required_argument (get_field args key)) s.required

-- The checks on a call whose tool is known and whose arguments are an object, in their order.
unfoldable pub check_arguments : Schema → Fields → Option DropReason
check_arguments s raw =
    let args = sanitized_args s raw in
    let missing = missing_required s args in
    let unknown = unknown_keys s raw in
    if not (is_nil missing)
    then some (missing_required_arguments missing)
    else if not (is_nil unknown) && is_end args
    then some (unsupported_argument_keys unknown)
    else if contains_placeholder_reference (object args)
    then some placeholder_arguments
    else none

-- One turn of the loop: the accepted call, or the entry for the dropped list.
pub data Verdict : Type 0 where
  accept : ToolCall → Verdict
  drop : Dropped → Verdict

abbrev pub reject : RawCall → DropReason → Verdict
reject call reason = drop (record { id = call.id; name = call.name; reason = reason })

-- The name of the accepted call is the schema's, the key under which it was found.
unfoldable pub judge_object : RawCall → Schema → Fields → Verdict
unfolding check_arguments
judge_object call s raw = elim (check_arguments s raw) [
  | some reason ↦ reject call reason
  | none ↦
      accept (record { id = call.id; name = s.name; arguments = object (sanitized_args s raw) })
]

unfoldable pub judge_arguments : RawCall → Schema → Option Value → Verdict
unfolding judge_object
judge_arguments call s none = judge_object call s end
judge_arguments call s (some (object fs)) = judge_object call s fs
judge_arguments call s (some v) = reject call arguments_must_be_object

unfoldable pub judge : List Schema → RawCall → Verdict
unfolding judge_arguments schema_of
judge schemas call = elim (schema_of schemas call.name) [
  | none ↦ reject call unknown_tool
  | some s ↦ judge_arguments call s call.arguments
]

abbrev pub collect : Verdict → List ToolCall × List Dropped → List ToolCall × List Dropped
collect (accept call) (accepted, dropped) = (call ∷ accepted, dropped)
collect (drop entry) (accepted, dropped) = (accepted, entry ∷ dropped)

unfoldable pub sanitize_proposed_tool_calls :
    List RawCall → List Schema → List ToolCall × List Dropped
sanitize_proposed_tool_calls [] schemas = ([], [])
sanitize_proposed_tool_calls (call ∷ rest) schemas =
    collect (judge schemas call) (sanitize_proposed_tool_calls rest schemas)
