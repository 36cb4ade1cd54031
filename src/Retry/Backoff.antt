-- ===== src/Retry/Backoff.antt =====
-- The delays of `backoff`.
use Prim.Native.Nat.{min}
use native.Mathlib.Nat.{two-pow-succ}
use viro_coolify.Base.{
  ℕ, zero, suc, ◌+◌, ◌-◌, ◌*◌, ◌^◌, ◌/◌, ◌<◌, ◌≤◌, Bool, true, false, ◌≡◌, refl, ◌∙◌, sym, ap,
  if◌then◌else◌, arith,
}
use viro_coolify.Base.Int.{ℤ, pos, int64_half, +64_pos, ◌*64◌, ◌-64◌, ◌/ℤ◌}
use viro_coolify.Retry.{doubled, jittered, backoff}

double : (d : ℕ) → d + d < int64_half → pos d *64 pos 2 ≡ pos (d + d)
unfolding ◌*64◌
double d h = ground arith

-- 2 ^ i, as the doubling reads it.
abbrev pub times_doubled : ℕ → ℕ → ℕ
times_doubled d zero = d
times_doubled d (suc i) = times_doubled (d + d) i

grows : (i d : ℕ) → d ≤ times_doubled d i
grows zero d = omega arith
grows (suc i) d = omega (arith, grows i (d + d))

doubled_lem :
    (m i d : ℕ)
    → 0 < d
    → d ≤ m
    → m + m < int64_half
    → doubled (pos m) i (pos d) ≡ pos (min m (times_doubled d i))
unfolding doubled
doubled_lem m zero d p h b = ground arith
doubled_lem m (suc i) d p h b =
    rw (double d (omega arith)) (ground (arith, doubled_lem m i (d + d), grows i (d + d)))

twice : (d n : ℕ) → (d + d) * n ≡ d * (n + n)
twice d n = ground arith

times_doubled_lem : (i d : ℕ) → times_doubled d i ≡ d * 2 ^ i
times_doubled_lem zero d = omega arith
times_doubled_lem (suc i) d =
    times_doubled_lem i (d + d) ∙ twice d (2 ^ i) ∙ ap (λ (n : ℕ). d * n) (sym (two-pow-succ i))

sub64_pos : (m n : ℕ) → n ≤ m → m < int64_half → pos m -64 pos n ≡ pos (m - n)
unfolding ◌-64◌
sub64_pos m n h b = ground arith

module _ (draw : ℤ → ℤ) where
  -- The step before jitter: the base delay, doubled for each retry and cut at the largest delay.
  abbrev pub step : ℕ → ℕ → ℕ → ℕ
  step m b attempt = min m (b * 2 ^ attempt)

  backoff_plain :
      (a : ℤ) (m b attempt : ℕ)
      → 0 < b
      → b ≤ m
      → m + m < int64_half
      → backoff draw
          (record { max_attempts = a; base_delay = pos b; max_delay = pos m; jitter = false })
          attempt
        ≡ pos (step m b attempt)
  unfolding backoff
  backoff_plain a m b attempt p h k =
      ground (arith, doubled_lem m attempt b p h k, times_doubled_lem attempt b)

  jittered-IsWithin :
      (c : ℕ)
      → c < int64_half
      → 0 < c
      → ((n : ℕ) → 0 < n → (r : ℕ) × (r < n) × (draw (pos n) ≡ pos r))
      → (j : ℕ) × (jittered draw (pos c) ≡ pos j) × (c / 2 ≤ j) × (j ≤ c)
  unfolding jittered ◌/ℤ◌
  jittered-IsWithin c b p d =
      let (r, s, e) = d (c - c / 2 + 1) (omega arith) in
      (
        c / 2 + r,
        rw (sub64_pos c (c / 2) (omega arith) b, +64_pos (c - c / 2) 1 (omega arith), e)
            (+64_pos (c / 2) r (omega arith)),
        omega arith,
        omega arith,
      )

  jittered-step :
      (a : ℤ) (m b attempt : ℕ)
      → 0 < b
      → b ≤ m
      → m + m < int64_half
      → backoff draw
          (record { max_attempts = a; base_delay = pos b; max_delay = pos m; jitter = true })
          attempt
        ≡ jittered draw (pos (step m b attempt))
  unfolding backoff
  jittered-step a m b attempt p h k =
      ground (arith, doubled_lem m attempt b p h k, times_doubled_lem attempt b, grows attempt b)

  -- The delay before a retry: the base delay, doubled for each earlier retry and cut at the largest
  -- delay; with jitter, something from half of that to the whole. This where the base delay is
  -- positive and at most the largest, twice the largest fits an int64, and the random number drawn
  -- below n is below n.
  pub backoff_lem :
      (a : ℤ) (m b attempt : ℕ)
      → 0 < b
      → b ≤ m
      → m + m < int64_half
      → ((n : ℕ) → 0 < n → (r : ℕ) × (r < n) × (draw (pos n) ≡ pos r))
      → (jitter : Bool)
      → (j : ℕ) × (backoff draw
            (record { max_attempts = a; base_delay = pos b; max_delay = pos m; jitter = jitter })
            attempt
          ≡ pos j)
        × (if jitter
            then (step m b attempt / 2 ≤ j) × (j ≤ step m b attempt)
            else j ≡ step m b attempt)
  backoff_lem a m b attempt p h k d false = (_, backoff_plain a m b attempt p h k, refl)
  backoff_lem a m b attempt p h k d true =
      let (j, e, f, g) =
        jittered-IsWithin (step m b attempt) (omega arith)
          (omega (arith, grows attempt b, times_doubled_lem attempt b)) d in
      (j, jittered-step a m b attempt p h k ∙ e, (f, g))
