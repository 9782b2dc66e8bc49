-- ===== src/Copilot/Guards/Laws.antt =====
-- What an accepted call satisfies.
use insta.Prelude.{
  String, eq_iff, ◌≡◌, ◌∙◌, refl, ap, subst, true, false, Option, none, some, Option-cases, List,
  [], ◌∷◌, all, All, arith, inl, inr,
}
use insta.Prelude.StringSet
use insta.Copilot.Values.{Value, object, Fields, end, member, RawCall, ToolCall, field_names}
use insta.Copilot.Guards.{
  Schema, Verdict, accept, drop, find_schema, schema_of, only_keys, contains_placeholder_reference,
  is_nil, sanitized_args, missing_required, check_arguments, judge_object, judge_arguments, judge,
  sanitize_proposed_tool_calls,
}

-- What the executor may rely on: the tool is in the schemas, the arguments are an object whose keys
-- the schema allows, no required key is missing or empty, and no text in it is a placeholder.
pub record IsClean (schemas : List Schema) (call : ToolCall) : Type 0 where
  pub schema : Schema
  pub args : Fields
  pub known : find_schema schemas call.name ≡ some schema
  pub is_object : call.arguments ≡ object args
  pub keys_allowed :
      is_nil schema.properties ≡ false
      → all (λ k. StringSet.member schema.properties k) (field_names args) ≡ true
  pub required_present : missing_required schema args ≡ []
  pub no_placeholder : contains_placeholder_reference (object args) ≡ false

field_names-only_keys :
    (allowed : List String) (fs : Fields)
    → all (λ k. StringSet.member allowed k) (field_names (only_keys allowed fs)) ≡ true
unfolding only_keys
field_names-only_keys allowed end = refl
field_names-only_keys allowed (member k v fs) = ground (arith, field_names-only_keys allowed fs)

check_none :
    (s : Schema) (raw : Fields)
    → check_arguments s raw ≡ none
    → (missing_required s (sanitized_args s raw) ≡ [])
      × (contains_placeholder_reference (object (sanitized_args s raw)) ≡ false)
unfolding check_arguments
check_none s raw h = ground arith

args_allowed :
    (s : Schema) (raw : Fields)
    → is_nil s.properties ≡ false
    → all (λ k. StringSet.member s.properties k) (field_names (sanitized_args s raw)) ≡ true
unfolding sanitized_args
args_allowed s raw h = rw h (field_names-only_keys s.properties raw)

pub find_schema-name :
    (schemas : List Schema) (name : String) {s : Schema}
    → find_schema schemas name ≡ some s
    → s.name ≡ name
unfolding find_schema
find_schema-name [] name h = cc
find_schema-name (t ∷ rest) name {s} h =
    ground (arith, find_schema-name rest name {s = s}, eq_iff t.name name)

judge_object-IsClean :
    (schemas : List Schema) (raw : RawCall) (s : Schema) (fs : Fields) (call : ToolCall)
    → find_schema schemas s.name ≡ some s
    → judge_object raw s fs ≡ accept call
    → IsClean schemas call
unfolding judge_object
judge_object-IsClean schemas raw s fs call known h = elim (Option-cases (check_arguments s fs)) [
  | inl e ↦ subst (IsClean schemas) (cc (e, h)) (clean e)
  | inr (r, e) ↦ absurd (ground (arith, e, h))
]
  where
    clean :
        check_arguments s fs ≡ none
        → IsClean schemas
            (record { id = raw.id; name = s.name; arguments = object (sanitized_args s fs) })
    clean e = record {
      schema = s;
      args = sanitized_args s fs;
      known = known;
      is_object = refl;
      keys_allowed = args_allowed s fs;
      required_present = (check_none s fs e).0;
      no_placeholder = (check_none s fs e).1;
    }

judge_arguments-IsClean :
    (schemas : List Schema) (raw : RawCall) (s : Schema) (o : Option Value) (call : ToolCall)
    → find_schema schemas s.name ≡ some s
    → judge_arguments raw s o ≡ accept call
    → IsClean schemas call
unfolding judge_arguments
judge_arguments-IsClean schemas raw s none call known h =
    judge_object-IsClean schemas raw s end call known h
judge_arguments-IsClean schemas raw s (some (object fs)) call known h =
    judge_object-IsClean schemas raw s fs call known h
judge_arguments-IsClean schemas raw s (some v) call known h = cc

judge_named-IsClean :
    (schemas : List Schema) (raw : RawCall) (o : Option String) (call : ToolCall)
    → raw.name ≡ o
    → judge schemas raw ≡ accept call
    → IsClean schemas call
unfolding judge schema_of
judge_named-IsClean schemas raw none call n h = absurd (ground (arith, n, h))
judge_named-IsClean schemas raw (some name) call n h =
    elim (Option-cases (find_schema schemas name)) [
      | inl e ↦ absurd (ground (arith, n, e, h))
      | inr (s, e) ↦
          judge_arguments-IsClean schemas raw s raw.arguments call
            (ap (find_schema schemas) (find_schema-name schemas name e) ∙ e)
            (ground (arith, n, e, h))
    ]

judge-IsClean :
    (schemas : List Schema) (raw : RawCall) (call : ToolCall)
    → judge schemas raw ≡ accept call
    → IsClean schemas call
judge-IsClean schemas raw call h = judge_named-IsClean schemas raw raw.name call refl h

-- Every accepted call, whatever the planner or the operator sent, is clean for the schemas.
pub sanitize-IsClean :
    (calls : List RawCall) (schemas : List Schema)
    → All (IsClean schemas) (sanitize_proposed_tool_calls calls schemas).0
unfolding sanitize_proposed_tool_calls
sanitize-IsClean [] schemas = tt
sanitize-IsClean (raw ∷ rest) schemas = go (judge schemas raw) refl (sanitize-IsClean rest schemas)
  where
    go :
        (v : Verdict)
        → judge schemas raw ≡ v
        → All (IsClean schemas) (sanitize_proposed_tool_calls rest schemas).0
        → All (IsClean schemas) (sanitize_proposed_tool_calls (raw ∷ rest) schemas).0
    go (accept call) e others = rw e (judge-IsClean schemas raw call e, others)
    go (drop entry) e others = rw e others
