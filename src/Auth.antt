-- ===== src/Auth.antt =====
-- internal/auth/jwt.go: tokens, issued and verified.
pub mod Trip
use viro_coolify.Base.{
  ℕ, ◌+◌, String, Bool, true, false, not, ◌||◌, Error, Result, ok, err, invalid_token, str_eq,
  if◌then◌else◌, or_error,
}
use viro_coolify.Domain.Scalar.{Time}

-- `TokenType`. A text in a token that is none of the constants is `other`.
pub data TokenType : Type 0 where
  access refresh : TokenType
  other : String → TokenType

abbrev pub same_type : TokenType → TokenType → Bool
same_type TokenType.access TokenType.access = true
same_type TokenType.refresh TokenType.refresh = true
same_type (TokenType.other a) (TokenType.other b) = str_eq a b
same_type a b = false

-- `Claims`, with the registered claims that are set
pub record Claims : Type 0 where
  pub typ : TokenType
  pub id : String
  pub subject : String
  pub issued_at : Time
  pub expires_at : Time

-- `TokenManager`. The clock is an argument of the operations.
pub record TokenManager : Type 0 where
  pub secret : String
  pub access_ttl : ℕ
  pub refresh_ttl : ℕ

-- The JWT library: `SignedString` with HS256, `ParseWithClaims` for HS256 only, which reads the clock
-- by itself, and `NewNumericDate`.
pub record Jwt : Type 0 where
  pub sign : Claims → String → Result String
  pub parse : Time → String → String → Result Claims
  pub numeric_date : Time → Time

-- `TokenManager.ttl`
unfoldable pub ttl : TokenManager → TokenType → ℕ
ttl m TokenType.refresh = m.refresh_ttl
ttl m _ = m.access_ttl

module _ (lib : Jwt) (m : TokenManager) where
  unfoldable pub claims_of : String → TokenType → Time → String → Claims
  unfolding ttl
  claims_of user_id t now jti = record {
    typ = t;
    id = jti;
    subject = user_id;
    issued_at = lib.numeric_date now;
    expires_at = lib.numeric_date (now + ttl m t);
  }

  -- `TokenManager.IssueWithID`, with the time and the new id as arguments
  unfoldable pub issue_with_id : String → TokenType → Time → String → Result (String × String)
  issue_with_id user_id t now jti = elim (lib.sign (claims_of user_id t now jti) m.secret) [
    | ok token ↦ ok (token, jti)
    | err e ↦ err e
  ]

  -- `TokenManager.Issue`
  unfoldable pub issue_token : String → TokenType → Time → String → Result String
  unfolding issue_with_id
  issue_token user_id t now jti = elim (issue_with_id user_id t now jti) [
    | ok (token, _) ↦ ok token
    | err e ↦ err e
  ]

  -- `TokenManager.Verify`, at the time that the library reads
  unfoldable pub verify : Time → String → TokenType → Result Claims
  verify at token expected = elim (lib.parse at token m.secret) [
    | err e ↦ err invalid_token
    | ok c ↦
        if not (same_type c.typ expected) || str_eq c.subject "" then err invalid_token else ok c
  ]
