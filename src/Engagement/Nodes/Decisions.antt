-- ===== src/Engagement/Nodes/Decisions.antt =====
-- What the operator's answer comes to.
use insta.Prelude.{
  String, str_eq, eq_iff, Option-cases, Bool, Bool-cases, inl, inr, true, false, ◌||◌, none, some,
  [], ◌∷◌, ◌≡◌, refl, sym, ap, subst, ◌∙◌, arith, if◌then◌else◌,
}
use insta.Prelude.Text.{codes, strip, lower, same_text}
use insta.Copilot.Values.{Value, text, object, end, member}
use insta.Copilot.Guards.{get_field}
use insta.Copilot.Graph.{is_true}
use insta.Jobs.Record.{Text}
use insta.Engagement.Nodes.Approval.{
  approval_result_of, concluded, raw_decision, normalize_resume_decision, decision_alias,
}

abbrev says : Text → String → Bool
says t word = same_text t (codes word)

same_text_lem : (s t : Text) → same_text s t ≡ true → s ≡ t
unfolding same_text
same_text_lem [] [] h = refl
same_text_lem [] (d ∷ t) h = absurd (cc h)
same_text_lem (c ∷ s) [] h = absurd (cc h)
same_text_lem (c ∷ s) (d ∷ t) h = ground (arith, same_text_lem s t)

abbrev is_edit : Text → Bool
is_edit t = says t "edit" || says t "edited"

abbrev is_rejection : Text → Bool
is_rejection t = says t "reject" || says t "rejected"

-- The words that approve, once blanks around them and upper case are gone.
abbrev pub approves_text : Text → Bool
approves_text t = (says t "approve" || says t "approved") || is_edit t

not_both : (t : Text) → is_rejection t ≡ true → approves_text t ≡ false
unfolding same_text
not_both t h = elim (Bool-cases (says t "reject")) [
  | inl e ↦ subst (λ x. approves_text x ≡ false) (sym (same_text_lem t (codes "reject") e)) refl
  | inr e ↦
      subst (λ x. approves_text x ≡ false)
        (sym (same_text_lem t (codes "rejected") (ground (arith, e, h)))) refl
]

abbrev accepts : String → Bool
accepts word = str_eq word "edited" || str_eq word "approved"

by_first_match :
    (yes rejects edit late : Bool)
    → (rejects ≡ true → (yes || edit) ≡ false)
    → accepts (
        if yes
        then "approved"
        else if rejects
        then "rejected"
        else if edit
        then "edited"
        else if late
        then "timeout"
        else "invalid")
      ≡ (yes || edit)
by_first_match true rejects edit late h = refl
by_first_match false true edit late h = sym (h refl)
by_first_match false false true late h = refl
by_first_match false false false true h = refl
by_first_match false false false false h = refl

decision_alias-accepts : (t : Text) → accepts (decision_alias t) ≡ approves_text t
unfolding decision_alias
decision_alias-accepts t =
    by_first_match (says t "approve" || says t "approved") (is_rejection t) (is_edit t)
      (says t "timeout") (not_both t)

-- Whether an answer is a text that approves.
abbrev approves_word : Value → Bool
approves_word (text s) = approves_text (lower (strip (codes s)))
approves_word v = false

-- Whether an answer, or its `decision` if it is an object, is a text that approves.
abbrev pub approves_answer : Value → Bool
approves_answer (object fs) = elim (get_field fs "decision") [
  | none ↦ false
  | some d ↦ approves_word d
]
approves_answer v = approves_word v

normalize-accepts : (v : Value) → accepts (normalize_resume_decision v) ≡ approves_word v
unfolding normalize_resume_decision
normalize-accepts (text s) = decision_alias-accepts (lower (strip (codes s)))
normalize-accepts v = refl

concluded-decision :
    (word : String) (d : Value)
    → (concluded word d).decision ≡ (if accepts word then "approved" else "rejected")
unfolding concluded
concluded-decision word d = ground arith

raw_decision-approves : (d : Value) → approves_word (raw_decision d) ≡ approves_answer d
unfolding raw_decision
raw_decision-approves (object fs) = elim (Option-cases (get_field fs "decision")) [
  | inl e ↦ ground (arith, e)
  | inr (v, e) ↦ ground (arith, e)
]
raw_decision-approves v = refl

falsy-refuses : (d : Value) → is_true d ≡ false → approves_answer d ≡ false
unfolding is_true same_text lower strip
falsy-refuses (text s) e =
    subst (λ x. approves_text (lower (strip (codes x))) ≡ false)
      (sym ((eq_iff s "").0 (ground (arith, e)))) refl
falsy-refuses (object end) e = unfold get_field in refl
falsy-refuses (object (member k v fs)) e = absurd (cc e)
falsy-refuses v e = refl

truthy-concluded :
    (d : Value)
    → is_true d ≡ true
    → approval_result_of d ≡ concluded (normalize_resume_decision (raw_decision d)) d
unfolding approval_result_of
truthy-concluded d e = ground (arith, e)

falsy-concluded : (d : Value) → is_true d ≡ false → approval_result_of d ≡ concluded "timeout" d
unfolding approval_result_of
falsy-concluded d e = ground (arith, e)

abbrev verdict : Bool → String
verdict b = if b then "approved" else "rejected"

-- The decision stored for an answer: approved exactly if the answer, or its `decision` if it is an
-- object, is a text that reads approve, approved, edit or edited, whatever the case and the blanks
-- around it. All else, a wrong type, an unknown word, an empty answer or a timeout, is a rejection.
pub approval_result_of-decision :
    (d : Value)
    → (approval_result_of d).decision ≡ (if approves_answer d then "approved" else "rejected")
approval_result_of-decision d = elim (Bool-cases (is_true d)) [
  | inl e ↦
      ap (λ r. r.decision) (truthy-concluded d e)
      ∙ concluded-decision (normalize_resume_decision (raw_decision d)) d
      ∙ ap verdict (normalize-accepts (raw_decision d) ∙ raw_decision-approves d)
  | inr e ↦
      ap (λ r. r.decision) (falsy-concluded d e)
      ∙ concluded-decision "timeout" d
      ∙ ap verdict (sym (falsy-refuses d e))
]

verdict-approved : (b : Bool) → str_eq (verdict b) "approved" ≡ b
verdict-approved true = refl
verdict-approved false = refl

pub approved_iff :
    (d : Value) → str_eq (approval_result_of d).decision "approved" ≡ approves_answer d
approved_iff d =
    ap (λ s. str_eq s "approved") (approval_result_of-decision d)
    ∙ verdict-approved (approves_answer d)
