-- ===== src/Retry/Attempts.antt =====
-- How often `Do` calls its function, and what it returns.
use mathlib.Core.Path.{subst}
use viro_coolify.Base.{
  ℕ, zero, suc, ◌+◌, ◌-◌, ◌<◌, ◌≤◌, Bool, true, Option, none, Error, Result, ok, err, ◌≡◌, refl,
  ◌==◌, if◌then◌else◌, arith,
}
use viro_coolify.Base.Int.{ℤ, pos, pos_part, ltb_ℤ}
use viro_coolify.Retry.{
  Policy, Attempt, success, terminal, failure, wait, run_from, backoff, do_attempts,
}

-- `policy.MaxAttempts`, where it is at least one.
abbrev pub attempts_of : Policy → ℕ
attempts_of policy = suc (pos_part policy.max_attempts - 1)

last : (attempt left : ℕ) → (attempt + left == attempt) ≡ (left == 0)
last attempt left = ground arith

last_of : (i left n : ℕ) → suc left ≡ n → (suc i == n) ≡ (0 + left == i)
last_of i left n h = ground arith

shifted : (attempt left : ℕ) → attempt + suc left ≡ suc attempt + left
shifted attempt left = omega arith

module _ (fn : ℕ → Attempt) (draw : ℕ → ℤ → ℤ) (ctx_err : ℕ → Option Error)
    (timer : ℕ → ℤ → Option Error) (policy : Policy) where
  run_from-calls :
      (attempt left : ℕ)
      → let calls = (run_from fn draw ctx_err timer policy attempt left).1 in
        (suc attempt ≤ calls) × (calls ≤ suc (attempt + left))
  unfolding run_from
  run_from-calls attempt zero = ground arith
  run_from-calls attempt (suc left) = ground (arith, run_from-calls (suc attempt) left)

  -- `Do` calls its function at least once, and at most as often as the policy allows.
  pub do_attempts-calls :
      let calls = (do_attempts fn draw ctx_err timer policy).1 in
      (1 ≤ calls) × (calls ≤ attempts_of policy)
  unfolding do_attempts
  do_attempts-calls =
      ground (arith, run_from-calls 0 (pos_part policy.max_attempts - 1), run_from-calls 0 0)

  -- An attempt that is tried again: its failure is not terminal, and the wait after it ends well.
  abbrev pub Retried : ℕ → Type 0
  Retried j =
      ((e : Error) × (fn j ≡ failure e))
      × (wait fn draw ctx_err timer j (backoff (draw j) policy j) ≡ none)

  -- What an attempt settles, the last one or not.
  abbrev pub Settles : Bool → Attempt → Result (Unit {0}) → Type 0
  Settles last success r = r ≡ ok tt
  Settles last (terminal e) r = r ≡ err e
  Settles last (failure e) r = (last ≡ true) × (r ≡ err e)

  settled_now :
      (attempt left : ℕ) (r : Result (Unit {0}))
      → Settles (left == 0) (fn attempt) r
      → run_from fn draw ctx_err timer policy attempt left ≡ (r, suc attempt)
  unfolding run_from
  settled_now attempt zero r s = of (fn attempt) refl s
    where
      of :
          (a : Attempt)
          → fn attempt ≡ a
          → Settles true a r
          → run_from fn draw ctx_err timer policy attempt zero ≡ (r, suc attempt)
      of success e s = rw (run_from, e, s) refl
      of (terminal c) e s = rw (run_from, e, s) refl
      of (failure c) e (l, s) = rw (run_from, e, s) refl
  settled_now attempt (suc left) r s = of (fn attempt) refl s
    where
      never : ¬ ((suc left == 0) ≡ true)
      never l = ground arith

      of :
          (a : Attempt)
          → fn attempt ≡ a
          → Settles (suc left == 0) a r
          → run_from fn draw ctx_err timer policy attempt (suc left) ≡ (r, suc attempt)
      of success e s = rw (run_from, e, s) refl
      of (terminal c) e s = rw (run_from, e, s) refl
      of (failure c) e (l, s) = absurd (never l)

  settled_at :
      (attempt left i : ℕ) (r : Result (Unit {0}))
      → attempt ≡ i
      → Settles (attempt + left == i) (fn i) r
      → run_from fn draw ctx_err timer policy attempt left ≡ (r, suc i)
  settled_at attempt left i r q s =
      subst
        (λ (i : ℕ).
          Settles (attempt + left == i) (fn i) r
          → run_from fn draw ctx_err timer policy attempt left ≡ (r, suc i))
        q
        (λ s.
          settled_now attempt left r (subst (λ b. Settles b (fn attempt) r) (last attempt left) s))
        s

  run_from_settled :
      (attempt left d i : ℕ) (r : Result (Unit {0}))
      → attempt + d ≡ i
      → i ≤ attempt + left
      → ((j : ℕ) → attempt ≤ j → j < i → Retried j)
      → Settles (attempt + left == i) (fn i) r
      → run_from fn draw ctx_err timer policy attempt left ≡ (r, suc i)
  unfolding run_from
  run_from_settled attempt zero d i r q h k s = settled_at attempt zero i r (omega arith) s
  run_from_settled attempt (suc left) zero i r q h k s =
      settled_at attempt (suc left) i r (omega arith) s
  run_from_settled attempt (suc left) (suc d) i r q h k s =
      let ((e, f), w) = k attempt (omega arith) (omega arith) in
      rw (run_from, f, w)
        (run_from_settled (suc attempt) left d i r (omega arith) (omega arith)
          (λ j a. k j (omega arith))
          (subst (λ (n : ℕ). Settles (n == i) (fn i) r) (shifted attempt left) s))

  left_of :
      suc (pos_part (if ltb_ℤ policy.max_attempts (pos 1) then pos 1 else policy.max_attempts) - 1)
      ≡ attempts_of policy
  left_of = ground arith

  -- `Do` returns what the first attempt settles that is not tried again: nil for a success, the error
  -- inside for a terminal one, and the error itself where it was the last attempt that the policy
  -- allows; and it has then called its function no more.
  pub do_attempts_settled :
      (i : ℕ) (r : Result (Unit {0}))
      → i < attempts_of policy
      → ((j : ℕ) → j < i → Retried j)
      → Settles (suc i == attempts_of policy) (fn i) r
      → do_attempts fn draw ctx_err timer policy ≡ (r, suc i)
  unfolding do_attempts
  do_attempts_settled i r h k s =
      run_from_settled 0 _ i i r (omega arith) (omega (arith, left_of)) (λ j a. k j)
        (subst (λ b. Settles b (fn i) r) (last_of i _ (attempts_of policy) left_of) s)
