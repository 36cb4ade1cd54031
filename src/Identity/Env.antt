-- ===== src/Identity/Env.antt =====
-- internal/identity/service.go: the service's settings, what it takes from the standard library and
-- from the cryptographic ones, and its functions on texts. internal/auth/password.go rests on bcrypt.
use Prim.Native.String.{◌++◌ as join}
use viro_coolify.Base.{
  ℕ, String, Bool, false, ◌||◌, List, [], ◌∷◌, Result, str_eq, ltb, if◌then◌else◌,
}
use viro_coolify.Domain.Scalar.{Time}
use viro_coolify.Domain.Access.{User}
use viro_coolify.Auth.{Jwt, TokenManager}

pub record Lib : Type 0 where
  -- strings.ToLower, strings.TrimSpace, len, strings.SplitN(email, "@", 2)[0]
  pub to_lower : String → String
  pub trim_space : String → String
  pub byte_length : String → ℕ
  pub before_at : String → String
  -- emailRe.MatchString, nonSlug.ReplaceAllString(s, "-"), strings.Trim(s, "-")
  pub is_email : String → Bool
  pub dashed : String → String
  pub trim_dashes : String → String
  -- strings.ReplaceAll(id, "-", ""), id[:6]
  pub drop_dashes : String → String
  pub first_six : String → String
  -- bcrypt.GenerateFromPassword, bcrypt.CompareHashAndPassword, hex of sha256.Sum256
  pub bcrypt_hash : String → Result String
  pub bcrypt_matches : String → String → Bool
  pub sha256_hex : String → String
  pub jwt : Jwt

-- The fields of `Service` that its decisions depend on. A TTL of 0 stands for one that is not set.
pub record Service : Type 0 where
  pub tokens : TokenManager
  pub admin_emails : List String
  pub refresh_ttl : ℕ
  pub invitation_ttl : ℕ
  pub password_reset_ttl : ℕ

-- What one call takes from the clock and from the generators of ids; one reading of the clock stands
-- for all those of the call.
pub record Fresh : Type 0 where
  pub now : Time
  pub id : String
  pub other_id : String
  pub third_id : String
  pub access_jti : String
  pub refresh_jti : String
  pub token : String

-- Go's zero user
abbrev pub zero_user : User
zero_user = record {
  id = "";
  email = "";
  name = "";
  password_hash = "";
  is_admin = false;
  created_at = 0;
}

module _ (lib : Lib) where
  unfoldable pub normalize_email : String → String
  normalize_email e = lib.to_lower (lib.trim_space e)

  -- `NewService` fills the map with the normalized addresses.
  unfoldable pub listed : String → List String → Bool
  unfolding normalize_email
  listed email [] = false
  listed email (e ∷ es) = str_eq (normalize_email e) email || listed email es

  -- `Service.isAdminEmail`
  unfoldable pub is_admin_email : Service → String → Bool
  unfolding normalize_email listed
  is_admin_email svc email = listed (normalize_email email) svc.admin_emails

  -- `auth.HashPassword` and `auth.CheckPassword`
  unfoldable pub hash_password : String → Result String
  hash_password plain = lib.bcrypt_hash plain

  unfoldable pub check_password : String → String → Bool
  check_password hash plain = lib.bcrypt_matches hash plain

  unfoldable pub hash_token : String → String
  hash_token token = lib.sha256_hex token

  -- The lengths that `Signup` and `ResetPassword` refuse.
  unfoldable pub bad_length : String → Bool
  bad_length password = ltb (lib.byte_length password) 8 || ltb 72 (lib.byte_length password)

  unfoldable pub slugify : String → String
  slugify s =
      let slug = lib.trim_dashes (lib.dashed (lib.to_lower (lib.trim_space s))) in
      if str_eq slug "" then "org" else slug

  unfoldable pub short_id : String → String
  short_id id =
      let plain = lib.drop_dashes id in
      if ltb 6 (lib.byte_length plain) then lib.first_six plain else plain

unfoldable pub personal_org_name : String → String
personal_org_name name = if str_eq name "" then "Personal" else join name "'s Org"
