-- ===== src/Identity/Sessions/Reuse.antt =====
-- internal/identity/service.go: a refresh token is rotated once, and presenting it again ends every
-- session of its user.
use viro_coolify.Base.{
  String, Bool, true, false, not, ◌&&◌, ok, err, some, invalid_credentials, str_eq, if◌then◌else◌,
  ◌≡◌, refl, ◌∙◌, inl, inr, Bool-cases, [], ◌∷◌, List, eq_refl, eq_iff, arith,
}
use viro_coolify.Base.Table.{lookup, contains, values, lookup-insert, contains-lookup}
use viro_coolify.Base.Member.{All}
use viro_coolify.Domain.Access.{User, RefreshToken}
use viro_coolify.Store.State.{MemoryStore}
use viro_coolify.Store.Session.{World, calm, read, write, or_fail, ignoring, may_fail}
use viro_coolify.Store.Session.Outcomes.{
  Ends, pure-Ends, throw-Ends, lift-Ends, if-Ends, read-Ends, update-Ends, write-Ends,
  on_not_found-Ends, or_fail-Ends, LeavesPair, stronger-Ends, Ends-ok, any-Ends, >>=-Ends,
}
use viro_coolify.Store.Session.Reads.{Leaves}
use viro_coolify.Store.Tokens.{
  create_refresh_token, get_refresh_token, revoke_refresh_token_if_active, revoke_all,
  revoke_all_user_refresh_tokens,
}
use viro_coolify.Store.Users.{get_user_by_id}
use viro_coolify.Auth.{TokenType, Claims, issue_token, issue_with_id, verify}
use viro_coolify.Identity.Env.{Lib, Service, Fresh}
use viro_coolify.Identity.Sessions.{
  AuthResult, is_past, refresh_row, issue, refuse_family, rotate, refresh_with, refresh,
}

-- The row of a token is there, of this user; and it has been revoked.
abbrev pub Row : String → String → MemoryStore → Type 0
Row id user_id s =
    (r : RefreshToken) × (lookup id s.refresh_tokens ≡ some r) × (r.user_id ≡ user_id)

abbrev pub IsRotated : String → String → MemoryStore → Type 0
IsRotated id user_id s =
    (r : RefreshToken) × (lookup id s.refresh_tokens ≡ some r)
    × (r.revoked ≡ true)
    × (r.user_id ≡ user_id)

-- A token that is not live for the user any more.
abbrev pub IsEnded : String → RefreshToken → Type 0
IsEnded user_id r = str_eq r.user_id user_id && not r.revoked ≡ false

pub revoke_all-IsEnded :
    (user_id : String) (m : List (String × RefreshToken))
    → All (IsEnded user_id) (values (revoke_all user_id m))
unfolding revoke_all values
revoke_all-IsEnded user_id [] = tt
revoke_all-IsEnded user_id ((id, r) ∷ m) =
    elim (Bool-cases (str_eq r.user_id user_id && not r.revoked)) [
      | inl e ↦ rw e (ground arith, revoke_all-IsEnded user_id m)
      | inr e ↦ rw e (e, revoke_all-IsEnded user_id m)
    ]

module _ (lib : Lib) (svc : Service) (c : Claims) (user_id : String) where
  other_row :
      (r : RefreshToken) (s : MemoryStore) (q : RefreshToken)
      → lookup c.id s.refresh_tokens ≡ some q
      → contains r.id s.refresh_tokens ≡ false
      → (if str_eq r.id c.id then some r else lookup c.id s.refresh_tokens) ≡ some q
  other_row r s q at d =
      ground (arith, at, d, eq_iff r.id c.id, contains-lookup c.id s.refresh_tokens q at)

  create-IsRotated :
      (r : RefreshToken) (s : MemoryStore)
      → IsRotated c.id user_id s
      → Leaves (IsRotated c.id user_id) (create_refresh_token s r)
  unfolding create_refresh_token
  create-IsRotated r s (q, at, h, u) = elim (Bool-cases (contains r.id s.refresh_tokens)) [
    | inl d ↦ rw (create_refresh_token, Leaves, d) tt
    | inr d ↦
        rw (create_refresh_token, Leaves, d)
          (q, lookup-insert r.id c.id r s.refresh_tokens ∙ other_row r s q at d, h, u)
  ]

  issue-Ends :
      (user : User) (f : Fresh)
      → Ends (IsRotated c.id user_id) (issue lib svc user f) (λ _. IsRotated c.id user_id)
  unfolding issue
  issue-Ends user f =
      >>=-Ends {A = String} _ (λ _. IsRotated c.id user_id) _ _ _
        (lift-Ends _ _ (issue_token lib.jwt svc.tokens user.id TokenType.access f.now f.access_jti)
          (λ a s e i. i))
        (λ access.
          >>=-Ends {A = String × String} _ (λ _. IsRotated c.id user_id) _ _ _
            (lift-Ends _ _
              (issue_with_id lib.jwt svc.tokens user.id TokenType.refresh f.now f.refresh_jti)
              (λ a s e i. i))
            (λ r.
              >>=-Ends {A = Unit {0}} _ (λ _. IsRotated c.id user_id) _ _ _
                (write-Ends _ _ _ (λ s i. create-IsRotated (refresh_row lib svc user f r.1) s i))
                (λ u.
                  pure-Ends _ _ (record { user = user; access = access; refresh = r.0 })
                    (λ s i. i))))

  refuse_family-Ends :
      (I : MemoryStore → Type 0) (id : String) (P : AuthResult → MemoryStore → Type 0)
      → Ends I (refuse_family lib svc id) P
  unfolding refuse_family
  refuse_family-Ends I id P =
      >>=-Ends {A = Unit {0}} I (λ _ _. Unit {0}) P _ _
        (any-Ends I (ignoring (write (λ s. revoke_all_user_refresh_tokens s id))))
        (λ _. throw-Ends _ _ invalid_credentials)

  revoke-IsRotated :
      (s : MemoryStore)
      → Row c.id user_id s
      → LeavesPair
          (λ won t. won ≡ true → IsRotated c.id user_id t)
          (revoke_refresh_token_if_active s c.id)
  unfolding revoke_refresh_token_if_active
  revoke-IsRotated s (r, at, h) = elim (Bool-cases r.revoked) [
    | inl d ↦ rw (revoke_refresh_token_if_active, LeavesPair, at, d) (λ e. ground (arith, e))
    | inr d ↦
        rw (revoke_refresh_token_if_active, LeavesPair, at, d)
          (λ e. (
            record r { revoked = true },
            lookup-insert c.id c.id _ s.refresh_tokens ∙ (rw (eq_refl c.id) refl),
            refl,
            h,
          ))
  ]

  rotate-Ends :
      (row : RefreshToken) (user : User) (f : Fresh)
      → Ends (Row c.id user_id) (rotate lib svc c row user f) (λ _. IsRotated c.id user_id)
  unfolding rotate
  rotate-Ends row user f =
      >>=-Ends {A = Bool} _ (λ won t. won ≡ true → IsRotated c.id user_id t) _ _ _
        (on_not_found-Ends _ _ _ _ (update-Ends _ _ _ revoke-IsRotated))
        (λ won.
          if-Ends _ _ (not won) _ _ (λ e. refuse_family-Ends _ _ _)
            (λ e.
              stronger-Ends _ _ (IsRotated c.id user_id) _ (issue-Ends user f)
                (λ s i. i (ground (arith, e)))))

  refresh_with-Ends :
      (f : Fresh) (row : RefreshToken)
      → Ends (Row c.id user_id) (refresh_with lib svc c f row) (λ _. IsRotated c.id user_id)
  unfolding refresh_with
  refresh_with-Ends f row =
      if-Ends _ _ row.revoked _ _ (λ e. refuse_family-Ends _ _ _)
        (λ e.
          if-Ends _ _ (is_past row.expires_at f.now) _ _ (λ e. throw-Ends _ _ invalid_credentials)
            (λ e.
              >>=-Ends {A = User} _ (λ _. Row c.id user_id) _
                (or_fail invalid_credentials (read (λ s. get_user_by_id s c.subject))) _
                (or_fail-Ends _ _ _ _ (read-Ends _ _ _ (λ a s i e. i)))
                (λ user. rotate-Ends row user f)))

  refresh-Ends :
      (token : String) (f : Fresh)
      → verify lib.jwt svc.tokens f.now token TokenType.refresh ≡ ok c
      → Ends (Row c.id user_id) (refresh lib svc token f) (λ _. IsRotated c.id user_id)
  unfolding refresh
  refresh-Ends token f e =
      rw (refresh, e)
        (if-Ends _ _ (str_eq c.id "") _ _ (λ e. throw-Ends _ _ invalid_credentials)
          (λ e.
            >>=-Ends {A = RefreshToken} _ (λ _. Row c.id user_id) _
              (or_fail invalid_credentials (read (λ s. get_refresh_token s c.id))) _
              (or_fail-Ends _ _ _ _ (read-Ends _ _ _ (λ a s i e. i)))
              (λ row. refresh_with-Ends f row)))

  -- What a token meets whose row is spent.
  refresh_spent :
      (token : String) (g : Fresh) (s : MemoryStore)
      → verify lib.jwt svc.tokens g.now token TokenType.refresh ≡ ok c
      → str_eq c.id "" ≡ false
      → IsRotated c.id user_id s
      → let (again, w) = refresh lib svc token g (calm s []) in
        (again ≡ err invalid_credentials) × All (IsEnded user_id) (values w.store.refresh_tokens)
  unfolding refresh refresh_with refuse_family get_refresh_token read write may_fail
      revoke_all_user_refresh_tokens
  refresh_spent token g s e named (q, at, spent, h) =
      rw (refresh, e, named, at, refresh_with, spent, h)
        (refl, revoke_all-IsEnded user_id s.refresh_tokens)

-- A refresh token with an id that Refresh has accepted once, whatever calls failed in that
-- run, is refused with invalid credentials when it is presented again while it verifies and no
-- call fails, and after that no stored refresh token of the user of its row is active.
pub refresh_reuse :
    (lib : Lib) (svc : Service) (c : Claims) (token : String) (f g : Fresh) (row : RefreshToken)
    (w : World) (r : AuthResult)
    → verify lib.jwt svc.tokens f.now token TokenType.refresh ≡ ok c
    → verify lib.jwt svc.tokens g.now token TokenType.refresh ≡ ok c
    → str_eq c.id "" ≡ false
    → lookup c.id w.store.refresh_tokens ≡ some row
    → (refresh lib svc token f w).0 ≡ ok r
    → let (again, after) = refresh lib svc token g (calm (refresh lib svc token f w).1.store []) in
      (again ≡ err invalid_credentials)
      × All (IsEnded row.user_id) (values after.store.refresh_tokens)
refresh_reuse lib svc c token f g row w r first second named at won =
    refresh_spent lib svc c row.user_id token g _ second named
      (Ends-ok _ _ _ w r (refresh-Ends lib svc c row.user_id token f first) (row, at, refl) won)
