-- ===== src/Retry.antt =====
-- internal/retryx/retryx.go: bounded retries with exponential backoff.
pub mod Backoff
pub mod Attempts
use viro_coolify.Base.{
  ℕ, zero, suc, ◌-◌, Bool, true, false, ◌&&◌, Option, none, some, Error, Result, ok, err, List, [],
  ◌∷◌, if◌then◌else◌,
}
use viro_coolify.Base.Int.{ℤ, pos, pos_part, leb_ℤ, ltb_ℤ, ◌+64◌, ◌-64◌, ◌*64◌, ◌/ℤ◌}

pub record Policy : Type 0 where
  pub max_attempts : ℤ
  pub base_delay : ℤ
  pub max_delay : ℤ
  pub jitter : Bool

unfoldable pub default_policy : Policy
default_policy = record {
  max_attempts = pos 3;
  base_delay = pos 200000000;
  max_delay = pos 2000000000;
  jitter = true;
}

-- What an attempt returns: nil, an error marked `Terminal`, or another error.
pub data Attempt : Type 0 where
  success : Attempt
  terminal failure : Error → Attempt

-- `IsTerminal`
unfoldable pub is_terminal : Attempt → Bool
is_terminal (terminal e) = true
is_terminal _ = false

-- The doubling of `backoff`, for so many retries.
unfoldable pub doubled : ℤ → ℕ → ℤ → ℤ
unfolding ◌*64◌
doubled max_delay zero d = d
doubled max_delay (suc i) d =
    let d2 = d *64 pos 2 in
    let rest = doubled max_delay i d2 in
    if ltb_ℤ (pos 0) max_delay && leb_ℤ max_delay d2 then max_delay else rest

-- `rand.Int63n(n)` is a number below n; `draw n` stands for the one drawn.
module _ (draw : ℤ → ℤ) where
  unfoldable pub jittered : ℤ → ℤ
  unfolding ◌-64◌ ◌+64◌ ◌/ℤ◌
  jittered d = (d /ℤ 2) +64 draw ((d -64 (d /ℤ 2)) +64 pos 1)

  unfoldable pub backoff : Policy → ℕ → ℤ
  unfolding doubled jittered
  backoff p attempt = if p.jitter && ltb_ℤ (pos 0) capped then jittered capped else capped
    where
      base : ℤ
      base = if leb_ℤ p.base_delay (pos 0) then pos 100000000 else p.base_delay

      grown : ℤ
      grown = doubled p.max_delay attempt base

      capped : ℤ
      capped = if ltb_ℤ (pos 0) p.max_delay && ltb_ℤ p.max_delay grown then p.max_delay else grown

-- What runs outside: the n-th call of `fn` returns `fn n`; after it `draw n` is what the random
-- numbers give, `ctx_err n` is `ctx.Err()`, and `timer n d` is the context's error where that comes
-- before a timer of `d` ends. A run gives its result and the number of calls of `fn`.
module _ (fn : ℕ → Attempt) (draw : ℕ → ℤ → ℤ) (ctx_err : ℕ → Option Error)
    (timer : ℕ → ℤ → Option Error) where
  unfoldable pub wait : ℕ → ℤ → Option Error
  wait attempt d = if leb_ℤ d (pos 0) then ctx_err attempt else timer attempt d

  -- The loop of `Do` from an attempt on, with so many attempts left after it.
  unfoldable pub run_from : Policy → ℕ → ℕ → Result (Unit {0}) × ℕ
  run_from policy attempt zero = elim (fn attempt) [
    | success ↦ (ok tt, suc attempt)
    | terminal e ↦ (err e, suc attempt)
    | failure e ↦ (err e, suc attempt)
  ]
  run_from policy attempt (suc left) =
      let rest = run_from policy (suc attempt) left in
      elim (fn attempt) [
        | success ↦ (ok tt, suc attempt)
        | terminal e ↦ (err e, suc attempt)
        | failure e ↦ elim (wait attempt (backoff (draw attempt) policy attempt)) [
          | some c ↦ (err c, suc attempt)
          | none ↦ rest
        ]
      ]

  -- `Do`
  unfoldable pub do_attempts : Policy → Result (Unit {0}) × ℕ
  unfolding run_from
  do_attempts policy =
      run_from policy 0
        (pos_part (if ltb_ℤ policy.max_attempts (pos 1) then pos 1 else policy.max_attempts) - 1)
