-- ===== src/Kube/Shards/Naming.antt =====
-- internal/kube/gateway_shard.go: the name of a shard tells its index.
use Prim.Native.String.{◌++◌ as join, len}
use text.Mathlib.TextPositions.{starts_with-append, slice-append_right, len-append}
use viro_coolify.Base.{
  ℕ, zero, suc, ◌+◌, ◌<◌, String, true, false, some, Result, ok, str_eq, ◌≡◌, refl, ap, eq_refl,
  eq_iff, inl, inr, Bool-cases, arith,
}
use viro_coolify.Base.Int.{ℤ, pos}
use viro_coolify.Kube.Shards.{gateway_shard_name, gateway_shard_index, trim_prefix, positive}

same_text : (s t : String) → str_eq s t ≡ true → s ≡ t
same_text s t e = ground (arith, eq_iff s t)

longer_differs : (s t : String) → len t < len s → str_eq s t ≡ false
longer_differs s t h = elim (Bool-cases (str_eq s t)) [
  | inl e ↦ ground (arith, h, ap len (same_text s t e))
  | inr e ↦ e
]

shard_len : (base : String) → len (join base "-shard-") ≡ len base + 7
shard_len base = len-append base "-shard-"

other_name : (s t : String) → str_eq s t ≡ false → str_eq t s ≡ false
other_name s t h = ground (arith, eq_iff s t, eq_iff t s)

trim_prefix-join : (p s : String) → trim_prefix (join p s) p ≡ s
trim_prefix-join p s = rw (starts_with-append p s, len-append p s) (slice-append_right p s)

positive-suc : (n : ℕ) → positive (ok (pos (suc n))) ≡ some (suc n)
positive-suc n = ground arith

-- The index that is read from the name of shard n of a pool is n, where Atoi reads back what
-- Itoa writes for n.
pub gateway_shard_index-gateway_shard_name :
    (itoa : ℕ → String) (atoi : String → Result ℤ) (base : String) (n : ℕ)
    → atoi (itoa n) ≡ ok (pos n)
    → gateway_shard_index atoi base (gateway_shard_name itoa base n) ≡ some n
unfolding gateway_shard_index gateway_shard_name
gateway_shard_index-gateway_shard_name itoa atoi base zero law = rw (eq_refl base) refl
gateway_shard_index-gateway_shard_name itoa atoi base (suc n) law =
    rw
      (
        longer_differs (join (join base "-shard-") (itoa (suc n))) base
            (omega (arith, len-append (join base "-shard-") (itoa (suc n)), shard_len base)),
        trim_prefix-join (join base "-shard-") (itoa (suc n)),
        other_name _ _ (
            longer_differs (join (join base "-shard-") (itoa (suc n))) (itoa (suc n))
              (omega (arith, len-append (join base "-shard-") (itoa (suc n)), shard_len base))),
        law,
      )
      (positive-suc n)
