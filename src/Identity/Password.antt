-- ===== src/Identity/Password.antt =====
-- internal/identity/service.go: the reset of a forgotten password. The mail with the link leaves the
-- store as it is and fails silently; the plain token goes into it only.
pub mod Reset
use viro_coolify.Base.{
  ℕ, ◌+◌, String, Bool, true, false, not, Error, Result, ok, err, is_not_found, invalid,
  invalid_credentials, ltb, ◌==◌, if◌then◌else◌,
}
use viro_coolify.Domain.Scalar.{Time}
use viro_coolify.Domain.Access.{User, PasswordResetToken}
use viro_coolify.Store.Session.{
  M, pure, throw, ◌>>=◌, ◌>>◌, look, read, write, update, on_not_found, or_fail, ignoring, lift,
  with_tx,
}
use viro_coolify.Store.Users.{get_user_by_email, get_user_by_id, update_user}
use viro_coolify.Store.Tokens.{
  create_password_reset_token, invalidate_user_password_reset_tokens,
  get_password_reset_token_by_hash, consume_password_reset_token, revoke_all_user_refresh_tokens,
}
use viro_coolify.Identity.Env.{
  Lib, Service, Fresh, zero_user, normalize_email, hash_token, hash_password, bad_length,
}

module _ (lib : Lib) (svc : Service) where
  unfoldable pub reset_row : User → Fresh → PasswordResetToken
  unfolding hash_token
  reset_row user f = record {
    id = f.id;
    user_id = user.id;
    token_hash = hash_token lib f.token;
    expires_at = f.now + svc.password_reset_ttl;
    used_at = 0;
    created_at = f.now;
  }

  -- `Service.ForgotPassword` for a user; an error of the store is logged only.
  unfoldable pub start_reset : User → Fresh → M (Unit {0})
  unfolding reset_row
  start_reset user f = ignoring (
      with_tx (
        write (λ s. invalidate_user_password_reset_tokens s user.id f.now)
        >> write (λ s. create_password_reset_token s (reset_row user f))))

  -- `Service.ForgotPassword`
  unfoldable pub forgot_password : String → Fresh → M (Unit {0})
  unfolding start_reset
  forgot_password email f =
      let address = normalize_email lib email in
      if not (lib.is_email address)
      then pure tt
      else (look (read (λ s. get_user_by_email lib.to_lower zero_user s address)) >>= λ r. elim r [
        | ok user ↦ start_reset user f
        | err e ↦ if is_not_found e then pure tt else throw e
      ])

-- The transaction of `ResetPassword`: whether it consumed the token.
unfoldable pub consume_and_set : PasswordResetToken → User → Time → M Bool
consume_and_set row user now =
    update (λ s. consume_password_reset_token s row.id now) >>= λ consumed.
    if not consumed
    then pure false
    else (write (λ s. update_user s user)
        >> write (λ s. revoke_all_user_refresh_tokens s user.id)
        >> pure true)

module _ (lib : Lib) where
  -- `Service.ResetPassword` once the row is read
  unfoldable pub reset_with : String → Time → PasswordResetToken → M (Unit {0})
  unfolding consume_and_set
  reset_with password now row =
      if not (row.used_at == 0)
      then throw invalid_credentials
      else if not (ltb now row.expires_at)
      then throw invalid_credentials
      else (or_fail invalid_credentials (read (λ s. get_user_by_id s row.user_id)) >>= λ user.
          lift (hash_password lib password) >>= λ hash.
          with_tx (consume_and_set row (record user { password_hash = hash }) now) >>= λ consumed.
          if not consumed then throw invalid_credentials else pure tt)

  -- `Service.ResetPassword`
  unfoldable pub reset_password : String → String → Time → M (Unit {0})
  unfolding reset_with
  reset_password token password now =
      if bad_length lib password
      then throw invalid
      else (on_not_found invalid_credentials
            (read (λ s. get_password_reset_token_by_hash s (hash_token lib token)))
          >>= λ row. reset_with password now row)
