-- ===== src/Auth/Trip.antt =====
-- internal/auth/jwt.go: what is issued is verified, as the type that it was issued as.
use mathlib.Core.Path.{subst}
use viro_coolify.Base.{
  ◌+◌, ◌<◌, ◌≤◌, ℕ, Error, ◌∙◌, ap, String, true, false, ok, err, invalid_token, str_eq, ◌≡◌, ◌≢◌,
  refl, inl, inr, eq_refl, arith, Result-cases,
}
use viro_coolify.Domain.Scalar.{Time}
use viro_coolify.Auth.{
  TokenType, same_type, Claims, TokenManager, Jwt, ttl, claims_of, issue_with_id, verify,
}

-- A type that is not another spelling of a constant.
abbrev pub IsPlain : TokenType → Type 0
IsPlain TokenType.access = Unit {0}
IsPlain TokenType.refresh = Unit {0}
IsPlain (TokenType.other t) = (t ≢ "access") × (t ≢ "refresh")

-- What the library documents: a time in a token is kept in whole steps (of a second); a signed token
-- with such times gives its claims back until it has expired, and is refused from then on.
pub record Documented (lib : Jwt) (secret : String) : Type 0 where
  pub whole : (at : Time) → lib.numeric_date (lib.numeric_date at) ≡ lib.numeric_date at
  pub parses :
      (c : Claims) (token : String) (at : Time)
      → IsPlain c.typ
      → lib.numeric_date c.issued_at ≡ c.issued_at
      → lib.numeric_date c.expires_at ≡ c.expires_at
      → lib.sign c secret ≡ ok token
      → at < c.expires_at
      → lib.parse at token secret ≡ ok c
  pub expires :
      (c : Claims) (token : String) (at : Time)
      → lib.sign c secret ≡ ok token
      → c.expires_at ≤ at
      → (e : Error) × (lib.parse at token secret ≡ err e)

-- How long a token of a type lives: a refresh token as long as the manager says for those, and any
-- other token as long as it says for access tokens.
abbrev pub lifetime : TokenManager → TokenType → ℕ
lifetime m TokenType.access = m.access_ttl
lifetime m TokenType.refresh = m.refresh_ttl
lifetime m (TokenType.other t) = m.access_ttl

lifetime-ttl : (m : TokenManager) (t : TokenType) → ttl m t ≡ lifetime m t
unfolding ttl
lifetime-ttl m TokenType.access = refl
lifetime-ttl m TokenType.refresh = refl
lifetime-ttl m (TokenType.other t) = refl

same_type_self : (t : TokenType) → same_type t t ≡ true
same_type_self TokenType.access = refl
same_type_self TokenType.refresh = refl
same_type_self (TokenType.other a) = eq_refl a

signed :
    (lib : Jwt) (m : TokenManager) (user_id jti id token : String) (t : TokenType) (now : Time)
    → issue_with_id lib m user_id t now jti ≡ ok (token, id)
    → (lib.sign (claims_of lib m user_id t now jti) m.secret ≡ ok token) × (jti ≡ id)
unfolding issue_with_id
signed lib m user_id jti id token t now issued =
    elim (Result-cases (lib.sign (claims_of lib m user_id t now jti) m.secret)) [
      | inl (s, q) ↦ (ground (arith, issued, q), ground (arith, issued, q))
      | inr (e, q) ↦ ground (arith, issued, q)
    ]

-- The claims that a token for a user carries.
abbrev pub issued_claims : Jwt → TokenManager → String → TokenType → Time → String → Claims
issued_claims lib m user_id t now jti = record {
  typ = t;
  id = jti;
  subject = user_id;
  issued_at = lib.numeric_date now;
  expires_at = lib.numeric_date (now + lifetime m t);
}

claims_of_lem :
    (lib : Jwt) (m : TokenManager) (user_id jti : String) (t : TokenType) (now : Time)
    → claims_of lib m user_id t now jti ≡ issued_claims lib m user_id t now jti
unfolding claims_of
claims_of_lem lib m user_id jti t now =
    ap
      (λ n. record (issued_claims lib m user_id t now jti) {
        expires_at = lib.numeric_date (now + n);
      })
      (lifetime-ttl m t)

-- A token that was issued for a user with a non-empty id is verified, before it expires, as the type
-- that it was issued as, with that type, the user, the id that was returned with it and its times in
-- the claims; as any other type it is refused as invalid, and from its expiry on as its own type too. A
-- refresh token expires after the manager's time for those, any other one after its time for access
-- tokens, rounded as the library rounds; where the library does as documented, and for types that are not
-- other spellings of the two constants.
pub verify-issue_with_id :
    (lib : Jwt) (m : TokenManager) (user_id jti id token : String) (t u : TokenType)
    (now early late : Time)
    → Documented lib m.secret
    → IsPlain t
    → IsPlain u
    → str_eq user_id "" ≡ false
    → issue_with_id lib m user_id t now jti ≡ ok (token, id)
    → early < lib.numeric_date (now + lifetime m t)
    → lib.numeric_date (now + lifetime m t) ≤ late
    → same_type t u ≡ false
    → (verify lib m early token t ≡ ok (issued_claims lib m user_id t now id))
      × (verify lib m early token u ≡ err invalid_token)
      × (verify lib m late token t ≡ err invalid_token)
unfolding verify
verify-issue_with_id lib m user_id jti id token t u now early late doc plain other_plain named
      issued live past other =
    let (s, same) = signed lib m user_id jti id token t now issued in
    let c =
      claims_of_lem lib m user_id jti t now ∙ ap (λ i. issued_claims lib m user_id t now i) same in
    let it : lib.sign (issued_claims lib m user_id t now id) m.secret ≡ ok token =
      subst (λ x. lib.sign x m.secret ≡ ok token) c s in
    let p =
      doc.parses _ token early plain (doc.whole now) (doc.whole (now + lifetime m t)) it live in
    let (e, q) = doc.expires _ token late it past in
    (rw (verify, p, same_type_self t, named) refl, rw (verify, p, other) refl, rw (verify, q) refl)
