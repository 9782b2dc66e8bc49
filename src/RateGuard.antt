-- ===== src/RateGuard.antt =====
-- `AccountRateLimitGuard` of backend/app/adapters/instagram/rate_limit_guard.py. Each method holds
-- the lock for all that it does with the entries, so it is one step. Times are clock ticks of
-- `time.monotonic` with `ticks` ticks to a second. The audit entry of a first cooldown goes to the
-- activity log and is not modelled.
pub mod Deadlines
use insta.Prelude.{
  ℕ, ◌+◌, ◌-◌, ◌*◌, leb, ltb, String, str_eq, Bool, true, false, not, ◌||◌, Option, none, some,
  List, [], ◌∷◌, if◌then◌else◌,
}
use insta.Prelude.Dict
use insta.Prelude.Dict.{Dict}

pub record CooldownEntry : Type 0 where
  pub limited_until : ℕ
  pub reason : String

abbrev pub Entries : Type 0
Entries = Dict CooldownEntry

-- `_COOLDOWNS`, `_DEFAULT_COOLDOWN`, in seconds
abbrev pub cooldowns : Dict ℕ
cooldowns = ("rate_limit", 3600) ∷ ("wait_required", 3600) ∷ ("feedback_required", 1800) ∷ []

abbrev pub default_cooldown : ℕ
default_cooldown = 3600

abbrev or_empty : Option String → String
or_empty none = ""
or_empty (some s) = s

-- The cooldown in seconds; an explicit one comes first.
unfoldable pub duration : Option String → Option ℕ → ℕ
duration failure_code (some cooldown_sec) = cooldown_sec
duration failure_code none = elim (Dict.get cooldowns (or_empty failure_code)) [
  | none ↦ default_cooldown
  | some seconds ↦ seconds
]

-- `failure_code or "rate_limit"`
unfoldable pub reason_of : Option String → String
reason_of failure_code =
    if str_eq (or_empty failure_code) "" then "rate_limit" else or_empty failure_code

abbrev is_later : Option CooldownEntry → ℕ → Bool
is_later none until = true
is_later (some e) until = ltb e.limited_until until

unfoldable pub mark_limited : ℕ → Entries → ℕ → String → Option String → Option ℕ → Entries
unfolding duration reason_of
mark_limited ticks entries now account_id failure_code cooldown_sec =
    let until = now + duration failure_code cooldown_sec * ticks in
    if is_later (Dict.get entries account_id) until
    then Dict.put entries account_id
        (record { limited_until = until; reason = reason_of failure_code })
    else entries

check_entry : Option CooldownEntry → Entries → ℕ → String → Entries × Bool × ℕ
check_entry none entries now account_id = (entries, false, 0)
check_entry (some e) entries now account_id =
    if leb e.limited_until now
    then (Dict.pop entries account_id, false, 0)
    else (entries, true, e.limited_until - now)

-- The entries after the lazy clean-up, whether the account is limited, and for how long.
unfoldable pub is_limited : Entries → ℕ → String → Entries × Bool × ℕ
unfolding check_entry
is_limited entries now account_id = check_entry (Dict.get entries account_id) entries now account_id

unfoldable pub clear : Entries → String → Entries
clear entries account_id = Dict.pop entries account_id

-- The entries that have not expired, which the snapshot lists.
unfoldable pub get_all_limited : Entries → ℕ → Entries
get_all_limited entries now = Dict.filter_values (λ e. ltb now e.limited_until) entries
