-- ===== src/RateWindow/Keys.antt =====
-- What a hit of one client does to the buckets of all.
use insta.Prelude.{
  ◌≤◌, ◌<◌, ℕ, ◌-◌, ◌*◌, leb, ltb, String, str_eq, Bool, true, false, some, ◌≡◌, sym, ap, subst,
  ◌∙◌, Bool-cases, inl, inr, arith, if◌then◌else◌,
}
use insta.Prelude.Dict
use insta.Prelude.Dict.{Dict, get-put}
use insta.Prelude.DictLaws.{
  IsUnique, put-IsUnique, passing, get-filter_values, filter_values-IsUnique,
}
use insta.Prelude.StringSet.{member}
use insta.RateWindow.Bounds.{idle_refused}
use insta.RateWindow.{
  Settings, Bucket, Counter, Answer, too_many, bucket_of, is_kept, record_hit, rate, cleanup, hit,
  limit_of, middleware, enabled,
}

-- A bucket that was just hit is not stale.
record_hit-is_kept :
    (window : ℕ) (b : Bucket) (now : ℕ) → is_kept window now (record_hit window b now) ≡ true
unfolding record_hit
record_hit-is_kept window b now = ground arith

module _ (ticks window : ℕ) (c : Counter) (now : ℕ) (key : String) where
  abbrev hit_bucket : Bucket
  hit_bucket = record_hit window (bucket_of (Dict.get c.buckets key)) now

  -- Whether a hit now cleans up.
  abbrev pub is_due : Bool
  is_due = ltb (300 * ticks) (now - c.last_cleanup)

  hit-buckets : (hit ticks window c now key).0.buckets ≡ (
      if is_due
      then Dict.filter_values (is_kept window now) (Dict.put c.buckets key hit_bucket)
      else Dict.put c.buckets key hit_bucket)
  unfolding hit cleanup
  hit-buckets = elim (Bool-cases is_due) [ inl e ↦ ground (arith, e) | inr e ↦ ground (arith, e) ]

  pub hit-IsUnique : IsUnique c.buckets → IsUnique (hit ticks window c now key).0.buckets
  hit-IsUnique u = subst IsUnique (sym hit-buckets) (elim (Bool-cases is_due) [
    | inl e ↦
        rw e
          (filter_values-IsUnique (is_kept window now) _ (put-IsUnique c.buckets key hit_bucket u))
    | inr e ↦ rw e (put-IsUnique c.buckets key hit_bucket u)
  ])

  -- After a hit the client's bucket is the one that the hit counted in, also if the hit cleaned up; the
  -- bucket of every other client is as it was, but for stale ones when the clean-up was due.
  pub hit_exact :
      (k : String)
      → IsUnique c.buckets
      → Dict.get (hit ticks window c now key).0.buckets k ≡ (
          if str_eq key k
          then some (record_hit window (bucket_of (Dict.get c.buckets key)) now)
          else if is_due
          then passing (is_kept window now) (Dict.get c.buckets k)
          else Dict.get c.buckets k)
  hit_exact k u = ap (λ d. Dict.get d k) hit-buckets ∙ elim (Bool-cases is_due) [
    | inl e ↦ ground (
      arith,
      e,
      get-filter_values (is_kept window now) (Dict.put c.buckets key hit_bucket) k
          (put-IsUnique c.buckets key hit_bucket u),
      get-put c.buckets key k hit_bucket,
      record_hit-is_kept window (bucket_of (Dict.get c.buckets key)) now,
    )
    | inr e ↦ ground (arith, e, get-put c.buckets key k hit_bucket)
  ]

abbrev pub is_too_many : Answer → Bool
is_too_many (too_many seconds left) = true
is_too_many a = false

counted :
    (ticks window : ℕ) (settings : Settings) (c : Counter) (now : ℕ) (method path key : String)
    → enabled settings ≡ true
    → member settings.exclude_paths path ≡ false
    → str_eq method "OPTIONS" ≡ false
    → is_too_many (middleware ticks window settings c now method path key).1
      ≡ ltb (limit_of settings * window) (hit ticks window c now key).1
unfolding middleware
counted ticks window settings c now method path key e x m =
    elim (Bool-cases (ltb (limit_of settings * window) (hit ticks window c now key).1)) [
      | inl r ↦ ground (arith, r)
      | inr r ↦ ground (arith, r)
    ]

-- A client that was idle for half a window or longer, however long, and whose bucket is still there,
-- is answered 429 on its next counted request exactly if its bucket counted as many requests as the
-- limit before it went idle.
pub idle_client_refused :
    (ticks window : ℕ) (settings : Settings) (c : Counter) (now : ℕ) (method path key : String)
    (b : Bucket)
    → enabled settings ≡ true
    → member settings.exclude_paths path ≡ false
    → str_eq method "OPTIONS" ≡ false
    → 0 < window
    → Dict.get c.buckets key ≡ some b
    → window ≤ 2 * (now - b.start)
    → is_too_many (middleware ticks window settings c now method path key).1
      ≡ leb (limit_of settings) b.current
unfolding hit
idle_client_refused ticks window settings c now method path key b e x m pos g r =
    counted ticks window settings c now method path key e x m
    ∙ ap
        (λ o.
          ltb (limit_of settings * window) (rate window (record_hit window (bucket_of o) now) now))
        g
    ∙ idle_refused window (limit_of settings) b now r pos
