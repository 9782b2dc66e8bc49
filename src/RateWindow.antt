-- ===== src/RateWindow.antt =====
-- The sliding-window limiter of backend/app/adapters/http/rate_limit.py. `hit` holds the lock for all that
-- it does, so it is one step; a client is the key that the middleware takes from the request. Times are ticks of `time.monotonic`. A rate is a count plus a weighted
-- count; it is kept here times the window, which is exact where the code rounds.
pub mod Bounds
pub mod Keys
use Prim.Native.Nat.{◌/◌}
use insta.Prelude.{
  ℕ, ◌+◌, ◌-◌, ◌*◌, leb, ltb, ◌==◌, String, str_eq, Bool, true, false, not, ◌||◌, Option, none,
  some, List, [], ◌∷◌, if◌then◌else◌,
}
use insta.Prelude.Dict
use insta.Prelude.Dict.{Dict}
use insta.Prelude.Text.{is_empty, strip}
use insta.Prelude.StringSet.{member}
use insta.Jobs.Record.{Text}

pub record Settings : Type 0 where
  pub rpm : ℕ
  pub burst : ℕ
  pub exclude_paths : List String

unfoldable pub enabled : Settings → Bool
enabled settings = ltb 0 settings.rpm

pub record Bucket : Type 0 where
  pub current : ℕ
  pub previous : ℕ
  pub start : ℕ

-- The bucket of a client that was not seen before.
abbrev pub new_bucket : Bucket
new_bucket = record { current = 0; previous = 0; start = 0 }

pub record Counter : Type 0 where
  pub buckets : Dict Bucket
  pub last_cleanup : ℕ

-- The bucket after a hit: once half of the window is over the count becomes the previous one.
unfoldable pub record_hit : ℕ → Bucket → ℕ → Bucket
record_hit window b now =
    let elapsed = now - b.start in
    if leb window elapsed
    then record { current = 1; previous = b.current; start = now }
    else if leb window (2 * elapsed)
    then record { current = 1; previous = b.current; start = now }
    else record b { current = b.current + 1 }

-- The rate times the window.
unfoldable pub rate : ℕ → Bucket → ℕ → ℕ
rate window b now = b.current * window + b.previous * (window - (now - b.start))

-- The buckets that a clean-up keeps.
abbrev pub is_kept : ℕ → ℕ → Bucket → Bool
is_kept window now b = not (ltb (b.start + 3 * window) now)

unfoldable pub cleanup : ℕ → Counter → ℕ → Counter
cleanup window c now = record {
  buckets = Dict.filter_values (is_kept window now) c.buckets;
  last_cleanup = now;
}

abbrev pub bucket_of : Option Bucket → Bucket
bucket_of none = new_bucket
bucket_of (some b) = b

-- The counter after a hit of a client, and the rate. `ticks` are the ticks of a second.
unfoldable pub hit : ℕ → ℕ → Counter → ℕ → String → Counter × ℕ
unfolding record_hit rate cleanup
hit ticks window c now key =
    let b = record_hit window (bucket_of (Dict.get c.buckets key)) now in
    let counted = record c { buckets = Dict.put c.buckets key b } in
    (
      if ltb (300 * ticks) (now - c.last_cleanup) then cleanup window counted now else counted,
      rate window b now,
    )

-- What the middleware does with a request: hands it on without counting it, hands it on and reports
-- how many requests remain, or answers 429 with the seconds to wait and the requests that remain.
pub data Answer : Type 0 where
  exempt : Answer
  served : ℕ → Answer
  too_many : ℕ → ℕ → Answer

-- `max(0, int(limit - rate))`; a window is not 0.
abbrev pub remaining : ℕ → ℕ → ℕ → ℕ
remaining window limit r = (limit * window - r) / window

unfoldable pub limit_of : Settings → ℕ
limit_of settings = settings.rpm + settings.burst

unfoldable pub middleware :
    ℕ → ℕ → Settings → Counter → ℕ → String → String → String → Counter × Answer
unfolding hit limit_of enabled
middleware ticks window settings c now method path key =
    let (after, r) = hit ticks window c now key in
    if not (enabled settings)
    then (c, exempt)
    else if member settings.exclude_paths path
    then (c, exempt)
    else if str_eq method "OPTIONS"
    then (c, exempt)
    else if ltb (limit_of settings * window) r
    then (after, too_many 30 (remaining window (limit_of settings) r))
    else (after, served (remaining window (limit_of settings) r))
