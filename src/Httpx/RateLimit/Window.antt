-- ===== src/Httpx/RateLimit/Window.antt =====
-- How many requests of a client the limiter lets through in a window.
use Prim.Native.Nat.{min}
use mathlib.Core.Path.{subst}
use viro_coolify.Base.Tally.{one_if}
use viro_coolify.Base.{
  ℕ, suc, ◌+◌, ◌-◌, ◌<◌, ◌≤◌, String, true, false, List, [], ◌∷◌, some, ◌≡◌, refl, ◌∙◌, sym, str_eq,
  Option-cases, Bool-cases, leb, leb→le, inl, inr, if◌then◌else◌, arith, eq_iff,
}
use viro_coolify.Base.Int.{ℤ, pos, leb_ℤ, int64_half, +64_pos}
use viro_coolify.Base.Table.{lookup, insert, lookup-insert}
use viro_coolify.Domain.Scalar.{Time}
use viro_coolify.Httpx.RateLimit.{WindowBucket, FixedWindowLimiter, elapsed, prune, allow}

lookup-prune :
    (window : ℤ) (now : Time) (k : String) (b : WindowBucket) (m : List (String × WindowBucket))
    → lookup k m ≡ some b
    → leb_ℤ window (elapsed now b.window_start) ≡ false
    → lookup k (prune window now m) ≡ some b
unfolding prune lookup
lookup-prune window now k b [] h e = ground arith
lookup-prune window now k b ((j, c) ∷ m) h e = ground (arith, lookup-prune window now k b m)

-- A request: the client's key, and the time.
abbrev pub Request : Type 0
Request = String × Time

-- The limiter after some requests, the first of them first.
abbrev pub after : FixedWindowLimiter → List Request → FixedWindowLimiter
after l [] = l
after l ((j, now) ∷ rs) = after (allow l j now).1 rs

-- How many of the requests of a key are let through, and how many there are.
abbrev pub admitted : FixedWindowLimiter → String → List Request → ℕ
admitted l k [] = 0
admitted l k ((j, now) ∷ rs) =
    let rest = admitted (allow l j now).1 k rs in
    if str_eq j k then one_if (allow l j now).0 + rest else rest

abbrev pub requests_of : String → List Request → ℕ
requests_of k [] = 0
requests_of k ((j, now) ∷ rs) = let rest = requests_of k rs in if str_eq j k then suc rest else rest

-- Every request comes before the window that opened at `start` has elapsed.
abbrev pub Within : ℤ → Time → List Request → Type 0
Within window start [] = Unit {0}
Within window start ((j, now) ∷ rs) =
    (leb_ℤ window (elapsed now start) ≡ false) × Within window start rs

-- A bucket of a key whose window has not elapsed.
abbrev pub Open : FixedWindowLimiter → String → ℕ → Time → Type 0
Open l k c start = lookup k l.buckets ≡ some (record { count = pos c; window_start = start })

allow_rules :
    (l : FixedWindowLimiter) (j : String) (now : Time)
    → ((allow l j now).1.limit ≡ l.limit) × ((allow l j now).1.window ≡ l.window)
unfolding allow
allow_rules l j now = ground arith

allow_other :
    (l : FixedWindowLimiter) (j k : String) (now : Time) (c : ℕ) (start : Time)
    → Open l k c start
    → leb_ℤ l.window (elapsed now start) ≡ false
    → str_eq j k ≡ false
    → Open (allow l j now).1 k c start
unfolding allow
allow_other l j k now c start h e n = elim (Option-cases (lookup j l.buckets)) [
  | inl a ↦ rw (allow, a) opened
  | inr (b, a) ↦ elim (Bool-cases (leb_ℤ l.window (elapsed now b.window_start))) [
    | inl f ↦ rw (allow, a, f) opened
    | inr f ↦ elim (Bool-cases (leb_ℤ l.limit b.count)) [
      | inl g ↦ rw (allow, a, f, g) h
      | inr g ↦ rw (allow, a, f, g) (kept _)
    ]
  ]
]
  where
    kept :
        (b : WindowBucket)
        → lookup k (insert j b l.buckets) ≡ some (record { count = pos c; window_start = start })
    kept b = lookup-insert j k b l.buckets ∙ rw n h

    opened :
        lookup k
          (prune l.window now (insert j (record { count = pos 1; window_start = now }) l.buckets))
        ≡ some (record { count = pos c; window_start = start })
    opened =
        lookup-prune l.window now k (record { count = pos c; window_start = start }) _ (kept _) e

allow_below :
    (l : FixedWindowLimiter) (k : String) (now : Time) (c n : ℕ) (start : Time)
    → Open l k c start
    → leb_ℤ l.window (elapsed now start) ≡ false
    → l.limit ≡ pos n
    → n < int64_half
    → c < n
    → ((allow l k now).0 ≡ true) × Open (allow l k now).1 k (suc c) start
unfolding allow
allow_below l k now c n start h e b s m =
    rw
      (
        allow,
        h,
        e,
        b,
        lt→leb c n m,
        +64_pos c 1 (omega arith),
        lookup-insert {V = WindowBucket} k k,
      )
      (refl, ground (arith, eq_iff k k))
  where
    lt→leb : (c n : ℕ) → c < n → leb_ℤ (pos n) (pos c) ≡ false
    lt→leb c n m = ground arith

allow_full :
    (l : FixedWindowLimiter) (k : String) (now : Time) (c n : ℕ) (start : Time)
    → Open l k c start
    → leb_ℤ l.window (elapsed now start) ≡ false
    → l.limit ≡ pos n
    → n ≤ c
    → allow l k now ≡ (false, l)
unfolding allow
allow_full l k now c n start h e b m = rw (allow, h, e, b, le→leb c n m)
  where
    le→leb : (c n : ℕ) → n ≤ c → leb_ℤ (pos n) (pos c) ≡ true
    le→leb c n m = ground arith

admitted-Open :
    (l : FixedWindowLimiter) (k : String) (c n : ℕ) (start : Time) (rs : List Request)
    → Open l k c start
    → l.limit ≡ pos n
    → n < int64_half
    → Within l.window start rs
    → admitted l k rs ≡ min (n - c) (requests_of k rs)
admitted-Open l k c n start [] h b s w = omega arith
admitted-Open l k c n start ((j, now) ∷ rs) h b s (e, w) = elim (Bool-cases (str_eq j k)) [
  | inl q ↦ rw q (
      subst
        (λ (i : String).
          one_if (allow l i now).0 + admitted (allow l i now).1 k rs
          ≡ min (n - c) (suc (requests_of k rs)))
        (sym ((eq_iff j k).0 q))
        (elim (Bool-cases (leb n c)) [
          | inl m ↦ full (leb→le n c m) (admitted-Open l k c n start rs h b s w)
          | inr m ↦ below (ground (arith, m)) (λ o.
              admitted-Open (allow l k now).1 k (suc c) n start rs o ((allow_rules l k now).0 ∙ b) s
                (within k))
        ]))
  | inr q ↦ rw q (
      admitted-Open (allow l j now).1 k c n start rs (allow_other l j k now c start h e q)
        ((allow_rules l j now).0 ∙ b) s (within j))
]
  where
    within : (i : String) → Within (allow l i now).1.window start rs
    within i = subst (λ v. Within v start rs) (sym (allow_rules l i now).1) w

    full :
        n ≤ c
        → admitted l k rs ≡ min (n - c) (requests_of k rs)
        → one_if (allow l k now).0 + admitted (allow l k now).1 k rs
          ≡ min (n - c) (suc (requests_of k rs))
    full m ih = rw (allow_full l k now c n start h e b m, ih) (omega arith)

    below :
        c < n
        → (Open (allow l k now).1 k (suc c) start
            → admitted (allow l k now).1 k rs ≡ min (n - suc c) (requests_of k rs))
        → one_if (allow l k now).0 + admitted (allow l k now).1 k rs
          ≡ min (n - c) (suc (requests_of k rs))
    below m ih = let (a, o) = allow_below l k now c n start h e b s m in rw (a, ih o) (omega arith)

-- No window of the key is open: it is unknown, or its window has elapsed.
abbrev pub Closed : FixedWindowLimiter → String → Time → Type 0
Closed l k now =
    (b : WindowBucket)
    → lookup k l.buckets ≡ some b
    → leb_ℤ l.window (elapsed now b.window_start) ≡ true

allow-Closed :
    (l : FixedWindowLimiter) (k : String) (now : Time)
    → Closed l k now
    → leb_ℤ l.window (elapsed now now) ≡ false
    → ((allow l k now).0 ≡ true) × Open (allow l k now).1 k 1 now
unfolding allow
allow-Closed l k now h e = elim (Option-cases (lookup k l.buckets)) [
  | inl a ↦ rw (allow, a) (refl, opened)
  | inr (b, a) ↦ rw (allow, a, h b a) (refl, opened)
]
  where
    bucket : WindowBucket
    bucket = record { count = pos 1; window_start = now }

    opened : lookup k (prune l.window now (insert k bucket l.buckets)) ≡ some bucket
    opened =
        lookup-prune l.window now k bucket (insert k bucket l.buckets)
          (lookup-insert k k bucket l.buckets ∙ ground (arith, eq_iff k k)) e

-- From a request that opens a window on, until that window has elapsed, the first `limit` requests
-- of the key are let through and no more, whatever other clients send in between; where the limit is
-- positive and the window is longer than no time.
pub admitted-allow :
    (l : FixedWindowLimiter) (k : String) (now : Time) (n : ℕ) (rs : List Request)
    → Closed l k now
    → l.limit ≡ pos n
    → 0 < n
    → n < int64_half
    → Within l.window now ((k, now) ∷ rs)
    → admitted l k ((k, now) ∷ rs) ≡ min n (requests_of k ((k, now) ∷ rs))
admitted-allow l k now n rs h b p s (e, w) =
    let (a, o) = allow-Closed l k now h e in
    rw
      (
        (eq_iff k k).1 refl,
        a,
        admitted-Open (allow l k now).1 k 1 n now rs o ((allow_rules l k now).0 ∙ b) s
            (subst (λ v. Within v now rs) (sym (allow_rules l k now).1) w),
      )
      (omega arith)
