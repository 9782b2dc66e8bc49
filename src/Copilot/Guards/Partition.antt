-- ===== src/Copilot/Guards/Partition.antt =====
-- That sanitizing accepts or reports every call, and repeats itself.
use insta.Prelude.{
  String, ◌≡◌, ◌≢◌, ◌∙◌, refl, sym, ap, subst, true, false, not, Bool-cases, Option, none, some,
  List, [], ◌∷◌, map, keep, all, All, arith, inl, inr,
}
use insta.Prelude.StringSet
use insta.Copilot.Values.{Value, object, Fields, end, member, RawCall, ToolCall, field_names}
use insta.Copilot.Guards.{
  Schema, DropReason, Dropped, unknown_tool, Verdict, accept, drop, reject, collect, find_schema,
  schema_of, only_keys, is_nil, sanitized_args, unknown_keys, check_arguments, judge_object,
  judge_arguments, judge, sanitize_proposed_tool_calls,
}
use insta.Copilot.Guards.Laws.{IsClean, find_schema-name, sanitize-IsClean}

-- An accepted call, sent again.
abbrev pub to_raw : ToolCall → RawCall
to_raw call = record { id = call.id; name = some call.name; arguments = some call.arguments }

only_keys_of_all :
    (allowed : List String) (fs : Fields)
    → all (λ k. StringSet.member allowed k) (field_names fs) ≡ true
    → only_keys allowed fs ≡ fs
unfolding only_keys
only_keys_of_all allowed end h = refl
only_keys_of_all allowed (member k v fs) h = ground (arith, only_keys_of_all allowed fs)

no_unknown_of_all :
    (allowed ks : List String)
    → all (λ k. StringSet.member allowed k) ks ≡ true
    → keep (λ k. not (StringSet.member allowed k)) ks ≡ []
no_unknown_of_all allowed [] h = refl
no_unknown_of_all allowed (k ∷ ks) h = ground (arith, no_unknown_of_all allowed ks)

module _ (s : Schema) (args : Fields)
    (fits : is_nil s.properties ≡ false
      → all (λ k. StringSet.member s.properties k) (field_names args) ≡ true) where
  sanitized_args_again : sanitized_args s args ≡ args
  unfolding sanitized_args
  sanitized_args_again = elim (Bool-cases (is_nil s.properties)) [
    | inl e ↦ rw e
    | inr e ↦ rw e (only_keys_of_all s.properties args (fits e))
  ]

  no_unknown_keys : unknown_keys s args ≡ []
  unfolding unknown_keys StringSet.sorted_set
  no_unknown_keys = elim (Bool-cases (is_nil s.properties)) [
    | inl e ↦ rw e
    | inr e ↦ rw e (rw (no_unknown_of_all s.properties (field_names args) (fits e)))
  ]

judge-to_raw :
    (schemas : List Schema) (call : ToolCall)
    → IsClean schemas call
    → judge schemas (to_raw call) ≡ accept call
unfolding judge schema_of judge_arguments judge_object check_arguments
judge-to_raw schemas call c = ground (
  arith,
  c.known,
  c.is_object,
  c.required_present,
  c.no_placeholder,
  find_schema-name schemas call.name c.known,
  sanitized_args_again c.schema c.args c.keys_allowed,
  no_unknown_keys c.schema c.args c.keys_allowed,
)

sanitize_of_IsClean :
    (schemas : List Schema) (calls : List ToolCall)
    → All (IsClean schemas) calls
    → sanitize_proposed_tool_calls (map to_raw calls) schemas ≡ (calls, [])
unfolding sanitize_proposed_tool_calls
sanitize_of_IsClean schemas [] h = refl
sanitize_of_IsClean schemas (call ∷ rest) h =
    rw (judge-to_raw schemas call h.0) (rw (sanitize_of_IsClean schemas rest h.1))

-- Sanitizing the accepted calls again accepts all of them, unchanged, and drops none.
pub sanitize_idem :
    (calls : List RawCall) (schemas : List Schema)
    → let accepted = (sanitize_proposed_tool_calls calls schemas).0 in
      sanitize_proposed_tool_calls (map to_raw accepted) schemas ≡ (accepted, [])
sanitize_idem calls schemas =
    sanitize_of_IsClean schemas (sanitize_proposed_tool_calls calls schemas).0
      (sanitize-IsClean calls schemas)

-- What an entry keeps of the call that it is for.
abbrev pub IsAcceptedOf : RawCall → ToolCall → Type 0
IsAcceptedOf raw call = (call.id ≡ raw.id) × (some call.name ≡ raw.name)

abbrev pub IsReportOf : RawCall → Dropped → Type 0
IsReportOf raw entry = (entry.id ≡ raw.id) × (entry.name ≡ raw.name)

-- A call is dropped only if it is not a clean one.
abbrev pub IsDroppedOf : List Schema → RawCall → Dropped → Type 0
IsDroppedOf schemas raw entry =
    IsReportOf raw entry × ((call : ToolCall) → IsClean schemas call → to_raw call ≢ raw)

-- The proposed calls, taken in their order, are merged from the accepted and the dropped: each is the
-- next one of one of the two.
pub data Sorted (schemas : List Schema) : List RawCall → List ToolCall → List Dropped → Type 0 where
  none_left : Sorted schemas [] [] []
  accepted_next :
      {raw : RawCall} {raws : List RawCall} {call : ToolCall} {calls : List ToolCall}
      {entries : List Dropped}
      → IsAcceptedOf raw call
      → Sorted schemas raws calls entries
      → Sorted schemas (raw ∷ raws) (call ∷ calls) entries
  dropped_next :
      {raw : RawCall} {raws : List RawCall} {calls : List ToolCall} {entry : Dropped}
      {entries : List Dropped}
      → IsDroppedOf schemas raw entry
      → Sorted schemas raws calls entries
      → Sorted schemas (raw ∷ raws) calls (entry ∷ entries)

abbrev IsVerdictOf : RawCall → Verdict → Type 0
IsVerdictOf raw (accept call) = IsAcceptedOf raw call
IsVerdictOf raw (drop entry) = IsReportOf raw entry

judge_object-IsVerdictOf :
    (raw : RawCall) (s : Schema) (fs : Fields)
    → raw.name ≡ some s.name
    → IsVerdictOf raw (judge_object raw s fs)
unfolding judge_object
judge_object-IsVerdictOf raw s fs n = go (check_arguments s fs)
  where
    go :
        (o : Option DropReason)
        → IsVerdictOf raw (elim o [
          | some reason ↦ reject raw reason
          | none ↦
              accept
                (record { id = raw.id; name = s.name; arguments = object (sanitized_args s fs) })
        ])
    go none = (refl, sym n)
    go (some reason) = (refl, refl)

judge_arguments-IsVerdictOf :
    (raw : RawCall) (s : Schema) (o : Option Value)
    → raw.name ≡ some s.name
    → IsVerdictOf raw (judge_arguments raw s o)
unfolding judge_arguments
judge_arguments-IsVerdictOf raw s none n = judge_object-IsVerdictOf raw s end n
judge_arguments-IsVerdictOf raw s (some (object fs)) n = judge_object-IsVerdictOf raw s fs n
judge_arguments-IsVerdictOf raw s (some v) n = (refl, refl)

judge-IsVerdictOf : (schemas : List Schema) (raw : RawCall) → IsVerdictOf raw (judge schemas raw)
unfolding judge schema_of
judge-IsVerdictOf schemas raw = named raw.name refl
  where
    found :
        (name : String) (o : Option Schema)
        → raw.name ≡ some name
        → find_schema schemas name ≡ o
        → IsVerdictOf raw (elim o [
          | none ↦ reject raw unknown_tool
          | some s ↦ judge_arguments raw s raw.arguments
        ])
    found name none n e = (refl, refl)
    found name (some s) n e =
        judge_arguments-IsVerdictOf raw s raw.arguments
          (n ∙ ap some (sym (find_schema-name schemas name e)))

    named :
        (o : Option String)
        → raw.name ≡ o
        → IsVerdictOf raw (elim (schema_of schemas o) [
          | none ↦ reject raw unknown_tool
          | some s ↦ judge_arguments raw s raw.arguments
        ])
    named none n = (refl, refl)
    named (some name) n = found name (find_schema schemas name) n refl

-- Every proposed call, in the order of the calls, is either the next accepted one, with its id and
-- name, or the next one that is reported as dropped, with its id and name; and none is dropped that is
-- clean for the schemas as it was sent.
pub sanitize_partition :
    (calls : List RawCall) (schemas : List Schema)
    → let (accepted, dropped) = sanitize_proposed_tool_calls calls schemas in
      Sorted schemas calls accepted dropped
unfolding sanitize_proposed_tool_calls
sanitize_partition [] schemas = none_left
sanitize_partition (raw ∷ rest) schemas =
    go (judge schemas raw) refl (judge-IsVerdictOf schemas raw) (sanitize_partition rest schemas)
  where
    not_clean :
        (entry : Dropped)
        → judge schemas raw ≡ drop entry
        → (call : ToolCall) → IsClean schemas call
        → to_raw call ≢ raw
    not_clean entry e call c same =
        cc (sym e ∙ subst (λ r. judge schemas r ≡ accept call) same (judge-to_raw schemas call c))

    go :
        (v : Verdict)
        → judge schemas raw ≡ v
        → IsVerdictOf raw v
        → (let (accepted, dropped) = sanitize_proposed_tool_calls rest schemas in
            Sorted schemas rest accepted dropped)
        → let (accepted, dropped) = collect v (sanitize_proposed_tool_calls rest schemas) in
          Sorted schemas (raw ∷ rest) accepted dropped
    go (accept call) e h ih = accepted_next h ih
    go (drop entry) e h ih = dropped_next (h, not_clean entry e) ih
