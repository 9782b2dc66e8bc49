-- ===== src/RateWindow/Bounds.antt =====
-- How many requests of one client are accepted.
use insta.Prelude.{
  ℕ, ◌+◌, ◌-◌, ◌*◌, ◌≤◌, ◌<◌, leb, ltb, false, List, [], ◌∷◌, ◌≡◌, refl, sym, ap, subst, ◌∙◌,
  Bool-cases, inl, inr, ◌⊎◌, arith, if◌then◌else◌, All,
}
use native.Mathlib.Nat.{
  le_of_mul-le-mul_right, mul-lt-mul_of_pos_right, mul-le-mul_right, mul-le-mul_left, add-mul,
  mul_assoc, mul_left_comm,
}
use insta.RateWindow.{Bucket, record_hit, rate}

-- The hits of one client at these times: the bucket they leave, and how many were accepted.
abbrev pub accepted_by : ℕ → ℕ → Bucket → ℕ → ℕ
accepted_by window limit b now = if ltb (limit * window) (rate window b now) then 0 else 1

unfoldable pub hits : ℕ → ℕ → Bucket → List ℕ → Bucket × ℕ
unfolding record_hit rate
hits window limit b [] = (b, 0)
hits window limit b (now ∷ rest) =
    let b' = record_hit window b now in
    let (last, n) = hits window limit b' rest in (last, accepted_by window limit b' now + n)

-- A time before the next rotation.
abbrev pub IsWithin : ℕ → ℕ → ℕ → Type 0
IsWithin window start now = (start ≤ now) × (2 * (now - start) < window)

module _ (window limit : ℕ) (b : Bucket) where
  within :
      (now : ℕ)
      → IsWithin window b.start now
      → record_hit window b now ≡ record b { current = b.current + 1 }
  unfolding record_hit
  within now h = ground (arith, h.1)

  rotated :
      (now : ℕ)
      → window ≤ 2 * (now - b.start)
      → record_hit window b now ≡ record { current = 1; previous = b.current; start = now }
  unfolding record_hit
  rotated now h = ground arith

  -- A hit that is accepted before the next rotation leaves room for the counts so far.
  within-room :
      (now : ℕ)
      → 0 < window
      → IsWithin window b.start now
      → rate window b now ≤ limit * window
      → 2 * b.current + b.previous ≤ 2 * limit
  unfolding rate
  within-room now pos h r =
      le_of_mul-le-mul_right
        (omega (
          arith,
          r,
          mul-le-mul_left {m = window} {n = 2 * (window - (now - b.start))} b.previous
              (omega (arith, h.1)),
          add-mul (2 * b.current) b.previous window,
          mul_assoc 2 b.current window,
          mul_assoc 2 limit window,
          mul_left_comm b.previous 2 (window - (now - b.start)),
        ))
        pos

accepted_rate :
    (window limit : ℕ) (b : Bucket) (now : ℕ)
    → (accepted_by window limit b now ≡ 0)
      ⊎ ((accepted_by window limit b now ≡ 1) × (rate window b now ≤ limit * window))
accepted_rate window limit b now = elim (Bool-cases (ltb (limit * window) (rate window b now))) [
  | inl e ↦ inl (ground (arith, e))
  | inr e ↦ inr (ground (arith, e), ground (arith, e))
]

-- Nothing is accepted, or twice the count with what is accepted, and the previous count, fit in twice
-- the limit.
abbrev pub Fits : ℕ → Bucket → ℕ → Type 0
Fits limit b n = (n ≡ 0) ⊎ (2 * (b.current + n) + b.previous ≤ 2 * limit)

hits_next :
    (window limit : ℕ) (b b' : Bucket) (now : ℕ) (rest : List ℕ)
    → record_hit window b now ≡ b'
    → (hits window limit b (now ∷ rest)).1
      ≡ accepted_by window limit b' now + (hits window limit b' rest).1
unfolding hits
hits_next window limit b b' now rest e =
    ap (λ x. accepted_by window limit x now + (hits window limit x rest).1) e

Fits-suc :
    (window limit : ℕ) (b : Bucket) (now n : ℕ)
    → let b' = record b { current = b.current + 1 } in
      0 < window
      → IsWithin window b.start now
      → Fits limit b' n
      → Fits limit b (accepted_by window limit b' now + n)
Fits-suc window limit b now n pos h fits =
    let b' = record b { current = b.current + 1 } in
    elim (accepted_rate window limit b' now) [
      | inl e ↦ ground (arith, e, fits)
      | inr (e, r) ↦ inr (ground (arith, e, fits, within-room window limit b' now pos h r))
    ]

hits-Fits :
    (window limit : ℕ) (b : Bucket) (times : List ℕ)
    → 0 < window
    → All (IsWithin window b.start) times
    → Fits limit b (hits window limit b times).1
hits-Fits window limit b [] pos h = unfold hits in inl refl
hits-Fits window limit b (now ∷ rest) pos h =
    let b' = record b { current = b.current + 1 } in
    subst (Fits limit b)
      (sym (hits_next window limit b b' now rest (within window limit b now h.0)))
      (Fits-suc window limit b now (hits window limit b' rest).1 pos h.0
        (hits-Fits window limit b' rest pos h.1))

full_window : (window x : ℕ) → window - (x - x) ≡ window
full_window window x = omega arith

-- The bucket after a rotation.
abbrev pub turned : Bucket → ℕ → Bucket
turned b now = record { current = 1; previous = b.current; start = now }

module _ (window limit : ℕ) (b : Bucket) (now : ℕ) (rotates : window ≤ 2 * (now - b.start)) where
  turned-rate : rate window (record_hit window b now) now ≡ (1 + b.current) * window
  turned-rate =
      ap (λ x. rate window x now) (rotated window limit b now rotates)
      ∙ unfold rate in
        omega (arith, add-mul 1 b.current window, ap (λ d. b.current * d) (full_window window now))

  turned-room : 0 < window → rate window (turned b now) now ≤ limit * window → 1 + b.current ≤ limit
  turned-room pos h =
      le_of_mul-le-mul_right
        (subst (λ r. r ≤ limit * window)
          (ap (λ x. rate window x now) (sym (rotated window limit b now rotates)) ∙ turned-rate) h)
        pos

  turned-Fits :
      (n : ℕ)
      → 0 < window
      → Fits limit (turned b now) n
      → let total = accepted_by window limit (turned b now) now + n in
        (total ≡ 0) ⊎ (2 * total + b.current ≤ 2 * limit)
  turned-Fits n pos fits = elim (accepted_rate window limit (turned b now) now) [
    | inl e ↦ ground (arith, e, fits)
    | inr (e, r) ↦ inr (ground (arith, e, fits, turned-room pos r))
  ]

  -- A client that is idle for half a window or longer, however long, is refused on its next request
  -- exactly if it made as many requests as the limit in the half window before it went idle.
  pub idle_refused :
      0 < window
      → ltb (limit * window) (rate window (record_hit window b now) now) ≡ leb limit b.current
  idle_refused pos =
      subst (λ r. ltb (limit * window) r ≡ leb limit b.current) (sym turned-rate)
        (elim (Bool-cases (leb limit b.current)) [
          | inl e ↦ ground (
            arith,
            e,
            mul-lt-mul_of_pos_right {m = limit} {n = 1 + b.current} {k = window} (ground (arith, e))
                pos,
          )
          | inr e ↦ ground (
            arith,
            e,
            mul-le-mul_right {m = 1 + b.current} {n = limit} window (ground (arith, e)),
          )
        ])

  -- What a rotation and the hits before the next one accept: nothing, or at most the limit less half of
  -- the count before, whether that was accepted or refused.
  pub hits_bound :
      (times : List ℕ)
      → 0 < window
      → All (IsWithin window now) times
      → let n = (hits window limit b (now ∷ times)).1 in (n ≡ 0) ⊎ (2 * n + b.current ≤ 2 * limit)
  hits_bound times pos h =
      subst (λ n. (n ≡ 0) ⊎ (2 * n + b.current ≤ 2 * limit))
        (sym
          (hits_next window limit b (turned b now) now times (rotated window limit b now rotates)))
        (turned-Fits (hits window limit (turned b now) times).1 pos
          (hits-Fits window limit (turned b now) times pos h))

-- Whatever was counted before, a client that makes one request after half a window, and the next after
-- another half, has the second one accepted, if the limit is two at least.
pub recovers :
    (window limit : ℕ) (b : Bucket) (first second : ℕ)
    → 2 ≤ limit
    → window ≤ 2 * (first - b.start)
    → window ≤ 2 * (second - first)
    → let b' = record_hit window b first in
      ltb (limit * window) (rate window (record_hit window b' second) second) ≡ false
recovers window limit b first second two r1 r2 =
    let b' = turned b first in
    subst (λ x. ltb (limit * window) (rate window (record_hit window x second) second) ≡ false)
      (sym (rotated window limit b first r1))
      (subst (λ r. ltb (limit * window) r ≡ false) (sym (turned-rate window limit b' second r2))
        (ground (arith, mul-le-mul_right {m = 2} {n = limit} window two)))
