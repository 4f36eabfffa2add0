-- ===== src/Daemon/Backoff.antt =====
-- daemon/src/backoff.rs: the delay before a new attempt to connect.
--
-- A duration is its number of nanoseconds.
use native.Mathlib.Nat.{pow-zero, pow-suc, pow-succ', mul_assoc}
use lensguard.Prelude.{
  ℕ, zero, suc, ◌-◌, ◌*◌, ◌/◌, ◌^◌, ◌≤◌, ◌<◌, ◌≡◌, ap, sym, ◌∙◌, ◌⊎◌, min, max, true, false, leb,
  if◌then◌else◌, arith, Bool-cases, inl, inr, ltb, ◌==◌,
}

pub record BackoffPolicy : Type 0 where
  pub initial : ℕ
  pub maximum : ℕ
  pub multiplier : ℕ

-- `Duration::as_millis` and `Duration::from_millis`
abbrev pub as_millis : ℕ → ℕ
as_millis nanoseconds = nanoseconds / 1_000_000

abbrev pub from_millis : ℕ → ℕ
from_millis milliseconds = milliseconds * 1_000_000

abbrev pub u128_max : ℕ
u128_max = 2 ^ 128 - 1

abbrev pub u64_max : ℕ
u64_max = 2 ^ 64 - 1

-- `u64::try_from(milliseconds).unwrap_or(u64::MAX)`
abbrev pub saturate_u64 : ℕ → ℕ
saturate_u64 n = min n u64_max

-- The loop of `delay`.
unfoldable pub delay_from : BackoffPolicy → ℕ → ℕ → ℕ
delay_from p zero milliseconds = from_millis (saturate_u64 milliseconds)
delay_from p (suc n) milliseconds =
    let grown = min (milliseconds * max p.multiplier 1) u128_max in
    elim (leb (as_millis p.maximum) grown) [ true ↦ p.maximum | false ↦ delay_from p n grown ]

-- `delay`
unfoldable pub delay : BackoffPolicy → ℕ → ℕ
delay p attempt = delay_from p attempt (min (as_millis p.initial) (as_millis p.maximum))

-- `Default`: from a quarter of a second, doubled up to half a minute.
abbrev pub default_policy : BackoffPolicy
default_policy = record { initial = 250_000_000; maximum = 30_000_000_000; multiplier = 2 }

-- One pass of the loop, at the maximum and below it.
delay_from_full :
    (p : BackoffPolicy) (n ms : ℕ)
    → as_millis p.maximum ≤ min (ms * max p.multiplier 1) u128_max
    → delay_from p (suc n) ms ≡ p.maximum
unfolding delay_from
delay_from_full p n ms h = ground arith

delay_from_below :
    (p : BackoffPolicy) (n ms : ℕ)
    → min (ms * max p.multiplier 1) u128_max < as_millis p.maximum
    → delay_from p (suc n) ms ≡ delay_from p n (min (ms * max p.multiplier 1) u128_max)
unfolding delay_from
delay_from_below p n ms h = ground arith

within_or_below : (a b : ℕ) → (a ≤ b) ⊎ (b < a)
within_or_below a b = elim (Bool-cases (leb a b)) [
  | inl within ↦ inl (ground arith)
  | inr below ↦ inr (ground arith)
]

mul_pos : (a b : ℕ) → 0 < b → a ≤ a * b
mul_pos a zero h = absurd (omega arith)
mul_pos a (suc b) h = omega arith

pow_pos : (g n : ℕ) → 0 < g → 0 < g ^ n
pow_pos g zero h = omega (arith, pow-zero g)
pow_pos g (suc n) h = omega (arith, pow_pos g n h, mul_pos (g ^ n) g h, pow-suc g n)

grow_suc : (ms g n : ℕ) → ms * g ^ suc n ≡ ms * g * g ^ n
grow_suc ms g n = ap (λ x. ms * x) (pow-succ' g n) ∙ sym (mul_assoc ms g (g ^ n))

module _ (p : BackoffPolicy) where
  abbrev factor : ℕ
  factor = max p.multiplier 1

  delay_from_exact :
      (n ms : ℕ)
      → as_millis p.maximum ≤ u64_max
      → ms * factor ^ n < as_millis p.maximum
      → delay_from p n ms ≡ from_millis (ms * factor ^ n)
  delay_from_exact zero ms small h =
      unfold delay_from in rw (pow-zero factor) (omega (arith, rw (pow-zero factor) at h))
  delay_from_exact (suc n) ms small h =
      let h' : ms * factor * factor ^ n < as_millis p.maximum = rw (sym (grow_suc ms factor n)) h in
      let below : ms * factor ≤ ms * factor * factor ^ n =
        mul_pos (ms * factor) (factor ^ n) (pow_pos factor n (omega arith)) in
      let uncut : min (ms * factor) u128_max ≡ ms * factor = omega arith in
      delay_from_below p n ms (omega arith)
      ∙ ap (delay_from p n) uncut
      ∙ delay_from_exact n (ms * factor) small h'
      ∙ ap from_millis (sym (grow_suc ms factor n))

  delay_from_capped :
      (n ms : ℕ)
      → as_millis p.maximum ≤ u64_max
      → as_millis p.maximum ≤ ms * factor ^ suc n
      → delay_from p (suc n) ms ≡ p.maximum
  delay_from_capped zero ms small h =
      let full : as_millis p.maximum ≤ ms * factor =
        omega (arith, rw (pow-suc factor 0, pow-zero factor) at h) in
      delay_from_full p zero ms (omega arith)
  delay_from_capped (suc n) ms small h =
      elim (within_or_below (as_millis p.maximum) (min (ms * factor) u128_max)) [
        | inl full ↦ delay_from_full p (suc n) ms full
        | inr less ↦
            let uncut : min (ms * factor) u128_max ≡ ms * factor = omega arith in
            delay_from_below p (suc n) ms less
            ∙ ap (delay_from p (suc n)) uncut
            ∙ delay_from_capped n (ms * factor) small (rw (sym (grow_suc ms factor (suc n))) h)
      ]

  -- The first delay, within the maximum, and what exponential growth makes of it.
  abbrev pub first : ℕ
  first = min (as_millis p.initial) (as_millis p.maximum)

  abbrev pub exponential : ℕ → ℕ
  exponential n =
      if ltb (first * max p.multiplier 1 ^ n) (as_millis p.maximum)
      then from_millis (first * max p.multiplier 1 ^ n)
      else if n == 0
      then from_millis (as_millis p.maximum)
      else p.maximum

  -- The delay of an attempt is the initial delay times a power of the multiplier, in whole
  -- milliseconds, as long as that stays below the maximum. From there on it is the maximum: the
  -- maximum itself, but at attempt 0, which takes no step, the maximum in whole milliseconds. No
  -- intermediate product overflows. The maximum is one whose milliseconds fit into 64 bits.
  pub delay-exponential :
      (attempt : ℕ) → as_millis p.maximum ≤ u64_max → delay p attempt ≡ exponential attempt
  unfolding delay
  delay-exponential zero small = unfold delay_from in ground (arith, pow-zero factor)
  delay-exponential (suc n) small =
      elim (Bool-cases (ltb (first * factor ^ suc n) (as_millis p.maximum))) [
        | inl below ↦ rw below (delay_from_exact (suc n) first small (ground arith))
        | inr full ↦ ground (arith, delay_from_capped n first small (ground arith))
      ]
