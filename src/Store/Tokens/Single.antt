-- ===== src/Store/Tokens/Single.antt =====
-- Who wins when several requests use one refresh token, or one password-reset token.
use mathlib.Core.Path.{subst, sym}
use Prim.Native.Nat.{min}
use viro_coolify.Base.Tally.{one_if}
use viro_coolify.Base.{
  ℕ, suc, ◌+◌, String, Bool, true, false, List, [], ◌∷◌, some, Result, ok, err, ◌≡◌, refl, ◌∙◌, inl,
  inr, str_eq, ◌==◌, if◌then◌else◌, arith, eq_iff, Bool-cases, Option-cases,
}
use viro_coolify.Base.Table.{lookup, lookup-insert}
use viro_coolify.Domain.Scalar.{Time}
use viro_coolify.Domain.Access.{RefreshToken, PasswordResetToken}
use viro_coolify.Store.State.{MemoryStore}
use viro_coolify.Store.Tokens.{revoke_refresh_token_if_active, consume_password_reset_token}

-- A compare-and-set: its answer, and the store it leaves.
abbrev pub won : Result (Bool × MemoryStore) → Bool
won (ok (b, s)) = b
won (err e) = false

abbrev pub left : MemoryStore → Result (Bool × MemoryStore) → MemoryStore
left s (ok (b, t)) = t
left s (err e) = s

-- How many uses of a token there are in a sequence of uses.
abbrev pub uses_of : String → List String → ℕ
uses_of k [] = 0
uses_of k (j ∷ js) = let rest = uses_of k js in if str_eq j k then suc rest else rest

-- How many of them win, when one runs after another.
abbrev pub wins :
    (MemoryStore → String → Result (Bool × MemoryStore)) → String → MemoryStore → List String → ℕ
wins spend k s [] = 0
wins spend k s (j ∷ js) =
    let rest = wins spend k (left s (spend s j)) js in
    if str_eq j k then one_if (won (spend s j)) + rest else rest

-- A use that a token allows once.
module _ (spend : MemoryStore → String → Result (Bool × MemoryStore)) (k : String)
    (Active Spent : MemoryStore → Type 0)
    (first : (s : MemoryStore) → Active s → (won (spend s k) ≡ true) × Spent (left s (spend s k)))
    (again : (s : MemoryStore) → Spent s → (won (spend s k) ≡ false) × Spent (left s (spend s k)))
    (other : (s : MemoryStore) (j : String)
      → str_eq j k ≡ false
      → (Active s → Active (left s (spend s j))) × (Spent s → Spent (left s (spend s j)))) where
  wins_spent : (js : List String) (s : MemoryStore) → Spent s → wins spend k s js ≡ 0
  wins_spent [] s a = refl
  wins_spent (j ∷ js) s a = elim (Bool-cases (str_eq j k)) [
    | inl e ↦ rw e (
        subst (λ (i : String). one_if (won (spend s i)) + wins spend k (left s (spend s i)) js ≡ 0)
          (sym ((eq_iff j k).0 e)) (rw ((again s a).0, wins_spent js _ (again s a).1) refl))
    | inr e ↦ rw e (wins_spent js _ ((other s j e).1 a))
  ]

  pub wins_active :
      (js : List String) (s : MemoryStore) → Active s → wins spend k s js ≡ min 1 (uses_of k js)
  wins_active [] s a = omega arith
  wins_active (j ∷ js) s a = elim (Bool-cases (str_eq j k)) [
    | inl e ↦ rw e (
        subst
          (λ (i : String).
            one_if (won (spend s i)) + wins spend k (left s (spend s i)) js
            ≡ min 1 (suc (uses_of k js)))
          (sym ((eq_iff j k).0 e))
          (rw ((first s a).0, wins_spent js _ (first s a).1) (omega arith)))
    | inr e ↦ rw e (wins_active js _ ((other s j e).0 a))
  ]

abbrev Holds : String → Bool → MemoryStore → Type 0
Holds k b s = (r : RefreshToken) × (lookup k s.refresh_tokens ≡ some r) × (r.revoked ≡ b)

rotation_first :
    (k : String) (s : MemoryStore)
    → Holds k false s
    → let r = revoke_refresh_token_if_active s k in (won r ≡ true) × Holds k true (left s r)
unfolding revoke_refresh_token_if_active
rotation_first k s (r, h, a) =
    rw (won, left, revoke_refresh_token_if_active, h, a)
      (
        refl,
        (
          record r { revoked = true },
          lookup-insert k k (record r { revoked = true }) s.refresh_tokens
              ∙ rw ((eq_iff k k).1 refl) refl,
          refl,
        ),
      )

rotation_again :
    (k : String) (s : MemoryStore)
    → Holds k true s
    → let r = revoke_refresh_token_if_active s k in (won r ≡ false) × Holds k true (left s r)
unfolding revoke_refresh_token_if_active
rotation_again k s (r, h, a) =
    rw (won, left, revoke_refresh_token_if_active, h, a) (refl, (r, h, a))

rotation_other :
    (k : String) (b : Bool) (s : MemoryStore) (j : String)
    → str_eq j k ≡ false
    → Holds k b s
    → Holds k b (left s (revoke_refresh_token_if_active s j))
unfolding revoke_refresh_token_if_active
rotation_other k b s j e (r, h, a) = elim (Option-cases (lookup j s.refresh_tokens)) [
  | inl q ↦ rw (left, revoke_refresh_token_if_active, q) (r, h, a)
  | inr (v, q) ↦ elim (Bool-cases v.revoked) [
    | inl c ↦ rw (left, revoke_refresh_token_if_active, q, c) (r, h, a)
    | inr c ↦
        rw (left, revoke_refresh_token_if_active, q, c)
          (r, lookup-insert j k (record v { revoked = true }) s.refresh_tokens ∙ rw e h, a)
  ]
]

-- Of the rotations of a refresh token that is not revoked exactly one wins, whatever other tokens
-- are rotated in between; so none wins a second time.
pub rotations_won :
    (k : String) (s : MemoryStore) (r : RefreshToken) (js : List String)
    → lookup k s.refresh_tokens ≡ some r
    → r.revoked ≡ false
    → wins revoke_refresh_token_if_active k s js ≡ min 1 (uses_of k js)
rotations_won k s r js h a =
    wins_active revoke_refresh_token_if_active k (Holds k false) (Holds k true) (rotation_first k)
      (rotation_again k) (λ s j e. (rotation_other k false s j e, rotation_other k true s j e)) js s
      (r, h, a)

abbrev HoldsReset : String → Bool → MemoryStore → Type 0
HoldsReset k b s =
    (t : PasswordResetToken) × (lookup k s.reset_tokens ≡ some t) × ((t.used_at == 0) ≡ b)

module _ (at : Time) (p : (at == 0) ≡ false) (k : String) where
  abbrev consume : MemoryStore → String → Result (Bool × MemoryStore)
  consume s j = consume_password_reset_token s j at

  reset_first :
      (s : MemoryStore)
      → HoldsReset k true s
      → (won (consume s k) ≡ true) × HoldsReset k false (left s (consume s k))
  unfolding consume_password_reset_token
  reset_first s (t, h, a) =
      rw (won, left, consume_password_reset_token, h, a)
        (
          refl,
          (
            record t { used_at = at },
            lookup-insert k k (record t { used_at = at }) s.reset_tokens
                ∙ rw ((eq_iff k k).1 refl) refl,
            p,
          ),
        )

  reset_again :
      (s : MemoryStore)
      → HoldsReset k false s
      → (won (consume s k) ≡ false) × HoldsReset k false (left s (consume s k))
  unfolding consume_password_reset_token
  reset_again s (t, h, a) = rw (won, left, consume_password_reset_token, h, a) (refl, (t, h, a))

  reset_other :
      (b : Bool) (s : MemoryStore) (j : String)
      → str_eq j k ≡ false
      → HoldsReset k b s
      → HoldsReset k b (left s (consume s j))
  unfolding consume_password_reset_token
  reset_other b s j e (t, h, a) = elim (Option-cases (lookup j s.reset_tokens)) [
    | inl q ↦ rw (left, consume_password_reset_token, q) (t, h, a)
    | inr (v, q) ↦ elim (Bool-cases (v.used_at == 0)) [
      | inr c ↦ rw (left, consume_password_reset_token, q, c) (t, h, a)
      | inl c ↦
          rw (left, consume_password_reset_token, q, c)
            (t, lookup-insert j k (record v { used_at = at }) s.reset_tokens ∙ rw e h, a)
    ]
  ]

  -- Of the uses of a password-reset token that was not used before exactly one wins, at a time that
  -- is not the zero time, whatever other tokens are used in between.
  pub resets_won :
      (s : MemoryStore) (t : PasswordResetToken) (js : List String)
      → lookup k s.reset_tokens ≡ some t
      → (t.used_at == 0) ≡ true
      → wins (λ s j. consume_password_reset_token s j at) k s js ≡ min 1 (uses_of k js)
  resets_won s t js h a =
      wins_active consume k (HoldsReset k true) (HoldsReset k false) reset_first reset_again
        (λ s j e. (reset_other true s j e, reset_other false s j e)) js s (t, h, a)
