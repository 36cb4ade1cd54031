-- ===== src/Identity/Sessions.antt =====
-- internal/identity/service.go: sessions. A refresh token that was verified counts only while its row
-- is stored and active.
pub mod Reuse
use viro_coolify.Base.{
  ℕ, ◌+◌, String, Bool, true, false, not, ◌&&◌, ◌||◌, Error, Result, ok, err, is_not_found,
  invalid_credentials, str_eq, ltb, ◌==◌, if◌then◌else◌,
}
use viro_coolify.Domain.Scalar.{Time}
use viro_coolify.Domain.Access.{User, RefreshToken}
use viro_coolify.Store.Session.{
  M, pure, throw, ◌>>=◌, ◌>>◌, look, read, write, update, on_not_found, or_fail, ignoring, lift,
  when,
}
use viro_coolify.Store.Users.{get_user_by_email, get_user_by_id, update_user}
use viro_coolify.Store.Tokens.{
  create_refresh_token, get_refresh_token, revoke_refresh_token, revoke_refresh_token_if_active,
  revoke_all_user_refresh_tokens, delete_expired_refresh_tokens,
}
use viro_coolify.Auth.{TokenType, Claims, issue_token, issue_with_id, verify}
use viro_coolify.Identity.Env.{
  Lib, Service, Fresh, zero_user, normalize_email, is_admin_email, check_password,
}

pub record AuthResult : Type 0 where
  pub user : User
  pub access : String
  pub refresh : String

-- Go's test of a stored expiry: zero never expires.
unfoldable pub is_past : Time → Time → Bool
is_past expires_at now = not (expires_at == 0) && not (ltb now expires_at)

module _ (lib : Lib) (svc : Service) where
  unfoldable pub refresh_row : User → Fresh → String → RefreshToken
  refresh_row user f jti = record {
    id = jti;
    user_id = user.id;
    revoked = false;
    created_at = f.now;
    expires_at = if ltb 0 svc.refresh_ttl then f.now + svc.refresh_ttl else 0;
  }

  -- `Service.issue`
  unfoldable pub issue : User → Fresh → M AuthResult
  issue user f =
      lift (issue_token lib.jwt svc.tokens user.id TokenType.access f.now f.access_jti)
      >>= λ access.
          lift (issue_with_id lib.jwt svc.tokens user.id TokenType.refresh f.now f.refresh_jti)
          >>= λ r.
              write (λ s. create_refresh_token s (refresh_row user f r.1))
              >> pure (record { user = user; access = access; refresh = r.0 })

  -- `Service.Login` once the password is right
  unfoldable pub sign_in : User → Fresh → M AuthResult
  unfolding issue
  sign_in user f =
      let want = is_admin_email lib svc user.email in
      let known = record user { is_admin = want } in
      if want && not user.is_admin || not want && user.is_admin
      then write (λ s. update_user s known) >> issue known f
      else issue user f

  -- `Service.Login`
  unfoldable pub login : String → String → Fresh → M AuthResult
  unfolding sign_in
  login email password f =
      on_not_found invalid_credentials
        (read (λ s. get_user_by_email lib.to_lower zero_user s (normalize_email lib email)))
      >>= λ user.
          if not (check_password lib user.password_hash password)
          then throw invalid_credentials
          else sign_in user f

  -- A token that is presented again: the whole family is revoked.
  unfoldable pub refuse_family : String → M AuthResult
  refuse_family user_id =
      ignoring (write (λ s. revoke_all_user_refresh_tokens s user_id)) >> throw invalid_credentials

  -- `Service.Refresh` from the compare-and-set on
  unfoldable pub rotate : Claims → RefreshToken → User → Fresh → M AuthResult
  unfolding issue refuse_family
  rotate c row user f =
      on_not_found invalid_credentials (update (λ s. revoke_refresh_token_if_active s c.id))
      >>= λ won. if not won then refuse_family row.user_id else issue user f

  -- `Service.Refresh` once the row is read
  unfoldable pub refresh_with : Claims → Fresh → RefreshToken → M AuthResult
  unfolding rotate refuse_family
  refresh_with c f row =
      if row.revoked
      then refuse_family row.user_id
      else if is_past row.expires_at f.now
      then throw invalid_credentials
      else (or_fail invalid_credentials (read (λ s. get_user_by_id s c.subject)) >>= λ user.
          rotate c row user f)

  -- `Service.Refresh`
  unfoldable pub refresh : String → Fresh → M AuthResult
  unfolding refresh_with
  refresh token f =
      or_fail invalid_credentials (lift (verify lib.jwt svc.tokens f.now token TokenType.refresh))
      >>= λ c.
          if str_eq c.id ""
          then throw invalid_credentials
          else (or_fail invalid_credentials (read (λ s. get_refresh_token s c.id)) >>= λ row.
              refresh_with c f row)

  -- The write of `Logout`, to which a row that is gone is no error
  unfoldable pub forget : String → M (Unit {0})
  forget id = look (write (λ s. revoke_refresh_token s id)) >>= λ r. elim r [
    | ok _ ↦ pure tt
    | err e ↦ if is_not_found e then pure tt else throw e
  ]

  -- `Service.Logout`
  unfoldable pub logout : String → Time → M (Unit {0})
  unfolding forget
  logout token now =
      if str_eq token ""
      then pure tt
      else elim (verify lib.jwt svc.tokens now token TokenType.refresh) [
        | ok c ↦ if str_eq c.id "" then pure tt else forget c.id
        | err e ↦ pure tt
      ]

-- `Service.GetUser`
unfoldable pub get_user : String → M User
get_user id = read (λ s. get_user_by_id s id)

-- `Service.CleanupExpiredRefreshTokens`
unfoldable pub cleanup_expired_refresh_tokens : Time → M ℕ
cleanup_expired_refresh_tokens now = update (λ s. delete_expired_refresh_tokens s now)
