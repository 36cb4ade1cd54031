-- ===== src/Identity/Password/Reset.antt =====
-- internal/identity/service.go: what a password reset leaves behind.
use viro_coolify.Base.{
  String, Bool, true, false, not, some, Error, ok, or_error, invalid_credentials, ltb, ◌==◌, ◌≡◌,
  refl, ◌∙◌, sym, ap, inl, inr, Bool-cases, eq_refl, arith,
}
use viro_coolify.Base.Table.{lookup, values, lookup-insert}
use viro_coolify.Base.Member.{All}
use viro_coolify.Domain.Scalar.{Time}
use viro_coolify.Domain.Access.{User, PasswordResetToken}
use viro_coolify.Store.State.{MemoryStore}
use viro_coolify.Store.Session.{World}
use viro_coolify.Store.Session.Reads.{Leaves}
use viro_coolify.Store.Session.Outcomes.{
  Ends, Ends-ok, LeavesPair, pure-Ends, throw-Ends, if-Ends, lift-Ends, read-Ends, write-Ends,
  update-Ends, with_tx-Ends, on_not_found-Ends, or_fail-Ends, stronger-Ends, fact-Ends, >>=-Ends,
  ok_injective,
}
use viro_coolify.Store.Users.{get_user_by_id, update_user}
use viro_coolify.Store.Tokens.{
  get_password_reset_token_by_hash, consume_password_reset_token, revoke_all_user_refresh_tokens,
}
use viro_coolify.Identity.Env.{Lib, hash_token, hash_password, bad_length}
use viro_coolify.Identity.Password.{consume_and_set, reset_with, reset_password}
use viro_coolify.Identity.Sessions.Reuse.{IsEnded, revoke_all-IsEnded}

module _ (row : PasswordResetToken) (user : User) (now : Time) where
  -- The rows before the reset, and after its steps.
  abbrev Before : MemoryStore → Type 0
  Before s =
      (lookup row.id s.reset_tokens ≡ some row)
      × (lookup row.user_id s.users ≡ some user)
      × (user.id ≡ row.user_id)

  abbrev Used : MemoryStore → Type 0
  Used s = lookup row.id s.reset_tokens ≡ some (record row { used_at = now })

  abbrev Changed : String → MemoryStore → Type 0
  Changed hash s = lookup user.id s.users ≡ some (record user { password_hash = hash })

  -- The token is used, the password is another, and no session of the user is live.
  abbrev pub IsReset : String → MemoryStore → Type 0
  IsReset hash s = Used s × Changed hash s × All (IsEnded user.id) (values s.refresh_tokens)

  consume-Used :
      (s : MemoryStore)
      → Before s
      → LeavesPair
          (λ consumed t. consumed ≡ true → Used t × (lookup user.id t.users ≡ some user))
          (consume_password_reset_token s row.id now)
  unfolding consume_password_reset_token
  consume-Used s (at, known, same) = elim (Bool-cases (row.used_at == 0)) [
    | inl e ↦
        rw (consume_password_reset_token, LeavesPair, at, e)
          (λ _. (
            lookup-insert row.id row.id _ s.reset_tokens ∙ rw (eq_refl row.id) refl,
            ap (λ id. lookup id s.users) same ∙ known,
          ))
    | inr e ↦ rw (consume_password_reset_token, LeavesPair, at, e) (λ h. ground (arith, h))
  ]

  update-Changed :
      (hash : String) (s : MemoryStore)
      → Used s × (lookup user.id s.users ≡ some user)
      → Leaves (λ t. Used t × Changed hash t) (update_user s (record user { password_hash = hash }))
  unfolding update_user
  update-Changed hash s (used, known) =
      rw (update_user, Leaves, known)
        (used, lookup-insert user.id user.id _ s.users ∙ rw (eq_refl user.id) refl)

  consume_and_set-Ends :
      (hash : String)
      → Ends Before
          (consume_and_set row (record user { password_hash = hash }) now)
          (λ consumed s. consumed ≡ true → IsReset hash s)
  unfolding consume_and_set revoke_all_user_refresh_tokens
  consume_and_set-Ends hash =
      >>=-Ends {A = Bool} _
        (λ consumed s. consumed ≡ true → Used s × (lookup user.id s.users ≡ some user)) _ _ _
        (update-Ends _ _ _ consume-Used)
        (λ consumed.
          if-Ends _ _ (not consumed) _ _ (λ e. pure-Ends _ _ false (λ s i h. ground (arith, h)))
            (λ e.
              >>=-Ends {A = Unit {0}} _ (λ _. IsReset hash) _ _ _
                (>>=-Ends {A = Unit {0}} _ (λ _ s. Used s × Changed hash s) _ _ _
                  (stronger-Ends _ _ (λ s. Used s × (lookup user.id s.users ≡ some user)) _
                    (write-Ends _ _ _ (update-Changed hash)) (λ s i. i (ground (arith, e))))
                  (λ _. write-Ends _ _ _ (λ s (used, known).
                    (used, known, revoke_all-IsEnded user.id s.refresh_tokens))))
                (λ _. pure-Ends _ _ true (λ s i h. i))))

  reset_with-Ends :
      (lib : Lib) (password : String)
      → Ends Before
          (reset_with lib password now row)
          (λ _ s. (hash : String) × (hash_password lib password ≡ ok hash) × IsReset hash s)
  unfolding reset_with get_user_by_id
  reset_with-Ends lib password =
      if-Ends _ _ (not (row.used_at == 0)) _ _ (λ _. throw-Ends _ _ invalid_credentials)
        (λ _.
          if-Ends _ _ (not (ltb now row.expires_at)) _ _ (λ _. throw-Ends _ _ invalid_credentials)
            (λ _.
              >>=-Ends {A = User} _ (λ u s. Before s × (u ≡ user)) _ _ _
                (or_fail-Ends _ _ _ _ (
                  read-Ends _ _ _
                    (λ a s i e. (i, ok_injective (sym e ∙ ap (or_error Error.not_found) i.1)))))
                (λ u. fact-Ends _ _ _ _ (λ same. rw same (
                  >>=-Ends {A = String} _
                    (λ hash s. Before s × (hash_password lib password ≡ ok hash)) _ _ _
                    (lift-Ends _ _ (hash_password lib password) (λ hash s e i. (i, e)))
                    (λ hash. fact-Ends _ _ _ _ (λ hashed.
                      >>=-Ends {A = Bool} _ (λ consumed s. consumed ≡ true → IsReset hash s) _ _ _
                        (with_tx-Ends _ _ _ (consume_and_set-Ends hash))
                        (λ consumed.
                          if-Ends _ _ (not consumed) _ _ (λ _. throw-Ends _ _ invalid_credentials)
                            (λ e.
                              pure-Ends _ _ tt
                                (λ s i. (hash, hashed, i (ground (arith, e)))))))))))))

  reset_password-Ends :
      (lib : Lib) (token password : String)
      → Ends
          (λ s. (get_password_reset_token_by_hash s (hash_token lib token) ≡ ok row) × Before s)
          (reset_password lib token password now)
          (λ _ s. (hash : String) × (hash_password lib password ≡ ok hash) × IsReset hash s)
  unfolding reset_password
  reset_password-Ends lib token password =
      if-Ends _ _ (bad_length lib password) _ _ (λ _. throw-Ends _ _ Error.invalid)
        (λ _.
          >>=-Ends {A = PasswordResetToken} _ (λ r s. Before s × (r ≡ row)) _ _ _
            (on_not_found-Ends _ _ _ _
              (read-Ends _ _ _ (λ a s i e. (i.1, ok_injective (sym e ∙ i.0)))))
            (λ r. fact-Ends _ _ _ _ (λ same. rw same (reset_with-Ends lib password))))

-- Where the row of the token is found by its hash and stands under its id, and so does its
-- user, a ResetPassword that succeeds, whatever calls fail, leaves the token used, the user
-- with the hash of the new password and nothing else changed, and no active refresh token of
-- the user.
pub reset_password-IsReset :
    (lib : Lib) (token password : String) (row : PasswordResetToken) (user : User) (now : Time)
    (w : World)
    → get_password_reset_token_by_hash w.store (hash_token lib token) ≡ ok row
    → lookup row.id w.store.reset_tokens ≡ some row
    → lookup row.user_id w.store.users ≡ some user
    → user.id ≡ row.user_id
    → (reset_password lib token password now w).0 ≡ ok tt
    → (hash : String) × (hash_password lib password ≡ ok hash)
      × IsReset row user now hash (reset_password lib token password now w).1.store
reset_password-IsReset lib token password row user now w found at known same done =
    Ends-ok _ _ _ w tt (reset_password-Ends row user now lib token password)
      (found, (at, known, same)) done
