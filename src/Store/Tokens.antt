-- ===== src/Store/Tokens.antt =====
-- internal/store/memory.go: refresh tokens, password-reset tokens and API tokens.
pub mod Single
use viro_coolify.Base.{
  ℕ, ◌+◌, String, Bool, true, false, ◌&&◌, not, List, [], ◌∷◌, Result, ok, err, not_found, conflict,
  or_error, str_eq, ltb, ◌==◌, if◌then◌else◌, none, some,
}
use viro_coolify.Base.Table.{lookup, insert, erase, contains, values, find, select, any}
use viro_coolify.Base.Sort.{sort_by}
use viro_coolify.Domain.Scalar.{Time}
use viro_coolify.Domain.Access.{RefreshToken, PasswordResetToken, ApiToken}
use viro_coolify.Store.State.{MemoryStore}

unfoldable pub create_refresh_token : MemoryStore → RefreshToken → Result MemoryStore
create_refresh_token s r =
    if contains r.id s.refresh_tokens
    then err conflict
    else ok (record s { refresh_tokens = insert r.id r s.refresh_tokens })

unfoldable pub get_refresh_token : MemoryStore → String → Result RefreshToken
get_refresh_token s id = or_error not_found (lookup id s.refresh_tokens)

unfoldable pub revoke_refresh_token : MemoryStore → String → Result MemoryStore
revoke_refresh_token s id = elim (lookup id s.refresh_tokens) [
  | none ↦ err not_found
  | some r ↦
      ok (record s { refresh_tokens = insert id (record r { revoked = true }) s.refresh_tokens })
]

-- The compare-and-set of a rotation: `true` goes to one caller only.
unfoldable pub revoke_refresh_token_if_active : MemoryStore → String → Result (Bool × MemoryStore)
revoke_refresh_token_if_active s id = elim (lookup id s.refresh_tokens) [
  | none ↦ err not_found
  | some r ↦
      if r.revoked
      then ok (false, s)
      else ok (
        true,
        record s { refresh_tokens = insert id (record r { revoked = true }) s.refresh_tokens },
      )
]

unfoldable pub revoke_all : String → List (String × RefreshToken) → List (String × RefreshToken)
revoke_all user_id [] = []
revoke_all user_id ((id, r) ∷ m) =
    (id, if str_eq r.user_id user_id && not r.revoked then record r { revoked = true } else r)
    ∷ revoke_all user_id m

unfoldable pub revoke_all_user_refresh_tokens : MemoryStore → String → Result MemoryStore
unfolding revoke_all
revoke_all_user_refresh_tokens s user_id =
    ok (record s { refresh_tokens = revoke_all user_id s.refresh_tokens })

unfoldable pub is_expired : Time → RefreshToken → Bool
is_expired before r = not (r.expires_at == 0) && ltb r.expires_at before

unfoldable pub drop_expired : Time → List (String × RefreshToken) → List (String × RefreshToken) × ℕ
unfolding is_expired
drop_expired before [] = ([], 0)
drop_expired before ((id, r) ∷ m) =
    let (kept, n) = drop_expired before m in
    if is_expired before r then (kept, n + 1) else ((id, r) ∷ kept, n)

unfoldable pub delete_expired_refresh_tokens : MemoryStore → Time → Result (ℕ × MemoryStore)
unfolding drop_expired
delete_expired_refresh_tokens s before =
    let (kept, n) = drop_expired before s.refresh_tokens in
    ok (n, record s { refresh_tokens = kept })

unfoldable pub create_password_reset_token : MemoryStore → PasswordResetToken → Result MemoryStore
create_password_reset_token s t =
    if contains t.id s.reset_tokens
    then err conflict
    else if any (λ e. str_eq e.token_hash t.token_hash) (values s.reset_tokens)
    then err conflict
    else ok (record s { reset_tokens = insert t.id t s.reset_tokens })

unfoldable pub invalidate_all :
    String → Time → List (String × PasswordResetToken) → List (String × PasswordResetToken)
invalidate_all user_id used_at [] = []
invalidate_all user_id used_at ((id, t) ∷ m) =
    (id, if str_eq t.user_id user_id && t.used_at == 0 then record t { used_at = used_at } else t)
    ∷ invalidate_all user_id used_at m

unfoldable pub invalidate_user_password_reset_tokens :
    MemoryStore → String → Time → Result MemoryStore
unfolding invalidate_all
invalidate_user_password_reset_tokens s user_id used_at =
    ok (record s { reset_tokens = invalidate_all user_id used_at s.reset_tokens })

unfoldable pub get_password_reset_token_by_hash : MemoryStore → String → Result PasswordResetToken
get_password_reset_token_by_hash s token_hash =
    or_error not_found (find (λ t. str_eq t.token_hash token_hash) (values s.reset_tokens))

unfoldable pub consume_password_reset_token :
    MemoryStore → String → Time → Result (Bool × MemoryStore)
consume_password_reset_token s id used_at = elim (lookup id s.reset_tokens) [
  | none ↦ err not_found
  | some t ↦
      if t.used_at == 0
      then ok (
        true,
        record s { reset_tokens = insert id (record t { used_at = used_at }) s.reset_tokens },
      )
      else ok (false, s)
]

unfoldable pub create_api_token : MemoryStore → ApiToken → Result MemoryStore
create_api_token s t =
    if contains t.id s.api_tokens
    then err conflict
    else if any (λ e. str_eq e.token_hash t.token_hash) (values s.api_tokens)
    then err conflict
    else ok (record s { api_tokens = insert t.id t s.api_tokens })

unfoldable pub get_api_token_by_hash : MemoryStore → String → Result ApiToken
get_api_token_by_hash s token_hash =
    or_error not_found (find (λ t. str_eq t.token_hash token_hash) (values s.api_tokens))

unfoldable pub list_api_tokens_by_user : MemoryStore → String → Result (List ApiToken)
list_api_tokens_by_user s user_id = ok (
    sort_by (λ a b. ltb b.created_at a.created_at)
      (select (λ t. str_eq t.user_id user_id) (values s.api_tokens)))

unfoldable pub delete_api_token : MemoryStore → String → String → Result MemoryStore
delete_api_token s user_id id = elim (lookup id s.api_tokens) [
  | none ↦ err not_found
  | some t ↦
      if str_eq t.user_id user_id
      then ok (record s { api_tokens = erase id s.api_tokens })
      else err not_found
]

unfoldable pub touch_api_token : MemoryStore → String → Time → Result MemoryStore
touch_api_token s id last_used_at = elim (lookup id s.api_tokens) [
  | none ↦ err not_found
  | some t ↦
      ok (record s {
        api_tokens = insert id (record t { last_used_at = last_used_at }) s.api_tokens;
      })
]
