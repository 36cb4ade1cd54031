-- ===== src/Tests/Tokens.antt =====
-- The theorem on tokens with a library that signs one set of claims.
use viro_coolify.Base.{
  ◌<◌, ◌≤◌, ltb, true, if◌then◌else◌, String, false, Error, invalid_token, Result, ok, err, ◌≡◌,
  refl, str_eq, ◌==◌, arith, ap, sym, eq_iff, Bool-cases, inl, inr,
}
use mathlib.Core.Path.{subst}
use viro_coolify.Domain.Scalar.{Time}
use viro_coolify.Auth.{TokenType, Claims, TokenManager, Jwt, ttl, claims_of, issue_with_id, verify}
use viro_coolify.Auth.Trip.{Documented, issued_claims, verify-issue_with_id}

-- Tokens

abbrev pub manager : TokenManager
manager = record { secret = "secret"; access_ttl = 900; refresh_ttl = 3600 }

abbrev pub issued : Claims
issued = record {
  typ = TokenType.refresh;
  id = "jti";
  subject = "alice";
  issued_at = 1000;
  expires_at = 4600;
}

String-discrete : Discrete String
String-discrete a b = elim (Bool-cases (str_eq a b)) [
  | inl e ↦ yes (ground (arith, eq_iff a b))
  | inr e ↦ no (λ p. ground (arith, eq_iff a b))
]

TokenType-discrete : Discrete TokenType
TokenType-discrete = hlevel (String-discrete)

Time-discrete : Discrete Time
Time-discrete a b = elim (Bool-cases (a == b)) [
  | inl e ↦ yes (ground (arith, e))
  | inr e ↦ no (λ p. ground (arith, e, p))
]

Claims-discrete : Discrete Claims
Claims-discrete = hlevel (String-discrete, TokenType-discrete, Time-discrete)

-- A library that signs one set of claims.
abbrev sign_if : {c : Claims} → Dec (c ≡ issued) → Result String
sign_if (yes e) = ok "token"
sign_if (no e) = err Error.transient

abbrev one_token : Jwt
one_token = record {
  sign = λ c k. sign_if (Claims-discrete c issued);
  parse = λ at token k. if ltb at 4600 then ok issued else err Error.transient;
  numeric_date = λ t. t;
}

signed_is : (c : Claims) (d : Dec (c ≡ issued)) (token : String) → sign_if d ≡ ok token → c ≡ issued
signed_is c (yes e) token h = e
signed_is c (no e) token h = ground (arith, h)

parsed :
    (c : Claims) (token : String) (at : Time)
    → c ≡ issued
    → at < c.expires_at
    → (if ltb at 4600 then ok issued else err Error.transient) ≡ ok c
parsed c token at e l =
    let h : at < 4600 = subst (λ x. at < x.expires_at) e l in
    let b : ltb at 4600 ≡ true = ground (arith, h) in rw b (ap ok (sym e))

refused :
    (c : Claims) (at : Time)
    → c ≡ issued
    → c.expires_at ≤ at
    → (if ltb at 4600 then ok issued else err Error.transient) ≡ err Error.transient
refused c at e l =
    let h : 4600 ≤ at = subst (λ x. x.expires_at ≤ at) e l in
    let b : ltb at 4600 ≡ false = ground (arith, h) in rw b refl

one_token-Documented : Documented one_token "secret"
one_token-Documented = record {
  whole = λ at. refl;
  parses = λ c token at plain i x h l.
      parsed c token at (signed_is c (Claims-discrete c issued) token h) l;
  expires = λ c token at h l.
      (Error.transient, refused c at (signed_is c (Claims-discrete c issued) token h) l);
}

sign_issued : (d : Dec (issued ≡ issued)) → sign_if d ≡ ok "token"
sign_issued (yes e) = refl
sign_issued (no n) = absurd (n refl)

signs : issue_with_id one_token manager "alice" TokenType.refresh 1000 "jti" ≡ ok ("token", "jti")
unfolding issue_with_id claims_of ttl
signs = ap (λ r. with_id r) (sign_issued (Claims-discrete issued issued))
  where
    with_id : Result String → Result (String × String)
    with_id (ok t) = ok (t, "jti")
    with_id (err e) = err e

verify-issue_with_id_example :
    (verify one_token manager 2000 "token" TokenType.refresh
      ≡ ok (issued_claims one_token manager "alice" TokenType.refresh 1000 "jti"))
    × (verify one_token manager 2000 "token" TokenType.access ≡ err invalid_token)
    × (verify one_token manager 5000 "token" TokenType.refresh ≡ err invalid_token)
verify-issue_with_id_example =
    verify-issue_with_id one_token manager "alice" "jti" "jti" "token" TokenType.refresh
      TokenType.access 1000 2000 5000 one_token-Documented tt tt refl signs (omega arith)
      (omega arith) refl
