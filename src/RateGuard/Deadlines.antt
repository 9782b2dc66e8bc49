-- ===== src/RateGuard/Deadlines.antt =====
-- The guard against its specification: an account's deadline is the latest end of a cooldown since it
-- was last cleared, and the account is limited until then.
use Prim.Native.Nat.{max}
use insta.Prelude.{
  ℕ, ◌+◌, ◌-◌, ◌*◌, ◌≤◌, ltb, String, str_eq, eq_iff, ◌≡◌, Option, none, some, Bool-cases, List, [],
  ◌∷◌, inl, inr, arith, if◌then◌else◌,
}
use insta.Prelude.Dict
use insta.Prelude.Dict.{Dict, get-put, get-pop}
use insta.Prelude.DictLaws.{
  IsUnique, put-IsUnique, pop-IsUnique, filter_values-IsUnique, passing, get-filter_values,
}
use insta.RateGuard.{
  CooldownEntry, Entries, is_later, check_entry, duration, reason_of, mark_limited, is_limited,
  clear, get_all_limited,
}

-- What callers do.
pub data Event : Type 0 where
  mark : String → Option String → Option ℕ → Event
  query clears : String → Event
  snapshot : Event

unfoldable pub apply : ℕ → Event → ℕ → Entries → Entries
apply ticks (mark a code seconds) now entries = mark_limited ticks entries now a code seconds
apply ticks (query a) now entries = (is_limited entries now a).0
apply ticks (clears a) now entries = clear entries a
apply ticks snapshot now entries = get_all_limited entries now

unfoldable pub apply_all : ℕ → List (Event × ℕ) → Entries → Entries
apply_all ticks [] entries = entries
apply_all ticks ((e, now) ∷ rest) entries = apply_all ticks rest (apply ticks e now entries)

-- The specification: it knows nothing of entries, expiry or clean-up.
unfoldable pub next_deadline : ℕ → Event → ℕ → (String → ℕ) → String → ℕ
next_deadline ticks (mark a code seconds) now d b =
    if str_eq a b then max (d b) (now + duration code seconds * ticks) else d b
next_deadline ticks (query a) now d b = d b
next_deadline ticks (clears a) now d b = if str_eq a b then 0 else d b
next_deadline ticks snapshot now d b = d b

unfoldable pub deadline : ℕ → List (Event × ℕ) → (String → ℕ) → String → ℕ
deadline ticks [] d = d
deadline ticks ((e, now) ∷ rest) d = deadline ticks rest (next_deadline ticks e now d)

-- The clock does not go back.
abbrev pub IsOrdered : ℕ → List (Event × ℕ) → ℕ → Type 0
IsOrdered before [] after = before ≤ after
IsOrdered before ((e, now) ∷ rest) after = (before ≤ now) × IsOrdered now rest after

abbrev Agrees : Option CooldownEntry → ℕ → ℕ → Type 0
Agrees none d now = d ≤ now
Agrees (some e) d now = e.limited_until ≡ d

later-Agrees :
    (o : Option CooldownEntry) (d before now : ℕ)
    → before ≤ now
    → Agrees o d before
    → Agrees o d now
later-Agrees none d before now h g = omega arith
later-Agrees (some e) d before now h g = g

passing-Agrees :
    (o : Option CooldownEntry) (d now : ℕ)
    → Agrees o d now
    → Agrees (passing (λ e. ltb now e.limited_until) o) d now
passing-Agrees none d now h = h
passing-Agrees (some e) d now h = ground arith

-- The entry that a mark leaves for its account.
abbrev extend : Option CooldownEntry → CooldownEntry → Option CooldownEntry
extend o e = if is_later o e.limited_until then some e else o

extend-Agrees :
    (o : Option CooldownEntry) (e : CooldownEntry) (d now : ℕ)
    → now ≤ e.limited_until
    → Agrees o d now
    → Agrees (extend o e) (max d e.limited_until) now
extend-Agrees none e d now l h = omega arith
extend-Agrees (some f) e d now l h = ground arith

module _ (ticks : ℕ) (entries : Entries) (now : ℕ) (a : String) (code : Option String)
    (seconds : Option ℕ) where
  abbrev marked : CooldownEntry
  marked = record { limited_until = now + duration code seconds * ticks; reason = reason_of code }

  get-mark_limited :
      (b : String)
      → Dict.get (mark_limited ticks entries now a code seconds) b
        ≡ (if str_eq a b then extend (Dict.get entries b) marked else Dict.get entries b)
  unfolding mark_limited
  get-mark_limited b = elim (Bool-cases (str_eq a b)) [
    | inl e ↦ rw (← (eq_iff a b).0 e) (ground (arith, get-put entries a a marked, eq_iff a a))
    | inr e ↦ ground (arith, e, get-put entries a b marked)
  ]

  mark-Agrees :
      (b : String) (d : ℕ)
      → Agrees (Dict.get entries b) d now
      → Agrees
          (Dict.get (mark_limited ticks entries now a code seconds) b)
          (if str_eq a b then max d (now + duration code seconds * ticks) else d)
          now
  mark-Agrees b d h = rw (get-mark_limited b) (elim (Bool-cases (str_eq a b)) [
    | inl e ↦ rw e (extend-Agrees (Dict.get entries b) marked d now (grind arith) h)
    | inr e ↦ rw e h
  ])

get-is_limited :
    (entries : Entries) (now : ℕ) (a b : String)
    → Dict.get (is_limited entries now a).0 b ≡ (
        if str_eq a b
        then passing (λ e. ltb now e.limited_until) (Dict.get entries b)
        else Dict.get entries b)
unfolding is_limited
get-is_limited entries now a b = elim (Bool-cases (str_eq a b)) [
  | inl e ↦ rw (← (eq_iff a b).0 e) (ground (arith, get-pop entries a a, eq_iff a a))
  | inr e ↦ ground (arith, e, get-pop entries a b)
]

query-Agrees :
    (entries : Entries) (now : ℕ) (a b : String) (d : ℕ)
    → Agrees (Dict.get entries b) d now
    → Agrees (Dict.get (is_limited entries now a).0 b) d now
query-Agrees entries now a b d h =
    rw (get-is_limited entries now a b) (elim (Bool-cases (str_eq a b)) [
      | inl e ↦ rw e (passing-Agrees (Dict.get entries b) d now h)
      | inr e ↦ rw e h
    ])

clear-Agrees :
    (entries : Entries) (now : ℕ) (a b : String) (d : ℕ)
    → Agrees (Dict.get entries b) d now
    → Agrees (Dict.get (clear entries a) b) (if str_eq a b then 0 else d) now
unfolding clear
clear-Agrees entries now a b d h =
    rw (get-pop entries a b)
      (elim (Bool-cases (str_eq a b)) [ inl e ↦ rw e (omega arith) | inr e ↦ rw e h ])

-- The entries stand for the deadlines: distinct accounts, and for each of them the deadline, or no
-- entry and a deadline that has passed.
pub record Represents (entries : Entries) (d : String → ℕ) (now : ℕ) : Type 0 where
  pub unique : IsUnique entries
  pub at : (a : String) → Agrees (Dict.get entries a) (d a) now

mark_limited-IsUnique :
    (ticks : ℕ) (entries : Entries) (now : ℕ) (a : String) (code : Option String)
    (seconds : Option ℕ)
    → IsUnique entries
    → IsUnique (mark_limited ticks entries now a code seconds)
unfolding mark_limited
mark_limited-IsUnique ticks entries now a code seconds h =
    ground (arith, put-IsUnique entries a (marked ticks entries now a code seconds))

is_limited-IsUnique :
    (entries : Entries) (now : ℕ) (a : String)
    → IsUnique entries
    → IsUnique (is_limited entries now a).0
unfolding is_limited
is_limited-IsUnique entries now a h = ground (arith, pop-IsUnique entries a)

apply-Represents :
    (ticks : ℕ) (e : Event) (before now : ℕ) (entries : Entries) (d : String → ℕ)
    → before ≤ now
    → Represents entries d before
    → Represents (apply ticks e now entries) (next_deadline ticks e now d) now
unfolding apply next_deadline
apply-Represents ticks (mark a code seconds) before now entries d l r = record {
  unique = mark_limited-IsUnique ticks entries now a code seconds r.unique;
  at = λ b.
      mark-Agrees ticks entries now a code seconds b (d b)
        (later-Agrees (Dict.get entries b) (d b) before now l (r.at b));
}
apply-Represents ticks (query a) before now entries d l r = record {
  unique = is_limited-IsUnique entries now a r.unique;
  at = λ b.
      query-Agrees entries now a b (d b)
        (later-Agrees (Dict.get entries b) (d b) before now l (r.at b));
}
apply-Represents ticks (clears a) before now entries d l r = record {
  unique = unfold clear in pop-IsUnique entries a r.unique;
  at = λ b.
      clear-Agrees entries now a b (d b)
        (later-Agrees (Dict.get entries b) (d b) before now l (r.at b));
}
apply-Represents ticks snapshot before now entries d l r = record {
  unique =
      unfold get_all_limited in
      filter_values-IsUnique (λ e. ltb now e.limited_until) entries r.unique;
  at = λ b. snapshot_at b;
}
  where
    snapshot_at : (b : String) → Agrees (Dict.get (get_all_limited entries now) b) (d b) now
    snapshot_at b =
        unfold get_all_limited in
        rw (get-filter_values (λ e. ltb now e.limited_until) entries b r.unique) (
          passing-Agrees (Dict.get entries b) (d b) now
            (later-Agrees (Dict.get entries b) (d b) before now l (r.at b)))

apply_all-Represents :
    (ticks : ℕ) (es : List (Event × ℕ)) (before after : ℕ) (entries : Entries) (d : String → ℕ)
    → IsOrdered before es after
    → Represents entries d before
    → Represents (apply_all ticks es entries) (deadline ticks es d) after
unfolding apply_all deadline
apply_all-Represents ticks [] before after entries d o r = record {
  unique = r.unique;
  at = λ a. later-Agrees (Dict.get entries a) (d a) before after o (r.at a);
}
apply_all-Represents ticks ((e, now) ∷ rest) before after entries d o r =
    apply_all-Represents ticks rest now after (apply ticks e now entries)
      (next_deadline ticks e now d) o.1 (apply-Represents ticks e before now entries d o.0 r)

-- The answer of `is_limited`, for entries that represent the deadlines.
check-answer :
    (o : Option CooldownEntry) (entries : Entries) (d now : ℕ) (a : String)
    → Agrees o d now
    → ((check_entry o entries now a).1 ≡ ltb now d) × ((check_entry o entries now a).2 ≡ d - now)
unfolding check_entry
check-answer none entries d now a h = ground arith
check-answer (some e) entries d now a h = ground arith

-- After any marks, queries, clears and snapshots at times that do not go back, an account is limited
-- exactly before its deadline, and the guard reports the time that is left: a cooldown is never
-- shortened, and the lazy clean-up is not seen.
pub is_limited_exact :
    (ticks : ℕ) (es : List (Event × ℕ)) (now : ℕ) (a : String)
    → IsOrdered 0 es now
    → let (entries, limited, retry_after) = is_limited (apply_all ticks es []) now a in
      (limited ≡ ltb now (deadline ticks es (λ _. 0) a))
      × (retry_after ≡ deadline ticks es (λ _. 0) a - now)
is_limited_exact ticks es now a o =
    let entries = apply_all ticks es [] in
    let r : Represents entries (deadline ticks es (λ _. 0)) now =
      apply_all-Represents ticks es 0 now [] (λ _. 0) o
        (record { unique = tt; at = λ b. unfold Dict.get in omega arith }) in
    unfold is_limited in
    check-answer (Dict.get entries a) entries (deadline ticks es (λ _. 0) a) now a (r.at a)
