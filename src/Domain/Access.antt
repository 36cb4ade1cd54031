-- ===== src/Domain/Access.antt =====
-- internal/domain/domain.go: users, organizations, roles, invitations, tokens and the audit log.
use Prim.Native.Nat.{ℕ}
use Prim.Native.String.{String}
use mathlib.Core.Bool.{Bool}
use mathlib.Core.List.{List}
use viro_coolify.Base.Tests.{ltb, leb}
use viro_coolify.Base.Int.{ℤ}
use viro_coolify.Domain.Scalar.{Time}

-- `Role`. A stored text outside the constants is `other`.
pub data Role : Type 0 where
  member admin owner : Role
  other : String → Role

-- `InvitationStatus`. A stored text outside the constants is `other`.
pub data InvitationStatus : Type 0 where
  pending accepted revoked : InvitationStatus
  other : String → InvitationStatus

pub record User : Type 0 where
  pub id : String
  pub email : String
  pub name : String
  pub password_hash : String
  pub is_admin : Bool
  pub created_at : Time

pub record Organization : Type 0 where
  pub id : String
  pub name : String
  pub slug : String
  pub billing_email : String
  pub spend_cap_cents : ℤ
  pub created_at : Time

pub record Membership : Type 0 where
  pub org_id : String
  pub user_id : String
  pub role : Role

pub record Project : Type 0 where
  pub id : String
  pub org_id : String
  pub name : String
  pub slug : String
  pub is_default : Bool
  pub created_at : Time

pub record ProjectMembership : Type 0 where
  pub project_id : String
  pub user_id : String
  pub role : Role

pub record Invitation : Type 0 where
  pub id : String
  pub org_id : String
  pub project_id : String
  pub email : String
  pub role : Role
  pub token : String
  pub status : InvitationStatus
  pub invited_by : String
  pub created_at : Time
  pub expires_at : Time

pub record RefreshToken : Type 0 where
  pub id : String
  pub user_id : String
  pub revoked : Bool
  pub created_at : Time
  pub expires_at : Time

pub record ApiToken : Type 0 where
  pub id : String
  pub user_id : String
  pub name : String
  pub token_hash : String
  pub prefix : String
  pub scopes : List String
  pub expires_at : Time
  pub last_used_at : Time
  pub created_at : Time

pub record PasswordResetToken : Type 0 where
  pub id : String
  pub user_id : String
  pub token_hash : String
  pub expires_at : Time
  pub used_at : Time
  pub created_at : Time

pub record AuditEvent : Type 0 where
  pub id : String
  pub org_id : String
  pub actor_user_id : String
  pub actor_email : String
  pub action : String
  pub target_type : String
  pub target_id : String
  pub metadata : String
  pub at : Time

pub record AuditFilter : Type 0 where
  pub org_id : String
  pub limit : ℤ
  pub offset : ℤ

-- `Role.Rank`
unfoldable pub rank : Role → ℕ
rank member = 1
rank admin = 2
rank owner = 3
rank (Role.other _) = 0

-- `Role.Valid`
unfoldable pub valid : Role → Bool
unfolding rank
valid r = ltb 0 (rank r)

-- `Role.AtLeast`
unfoldable pub at_least : Role → Role → Bool
unfolding rank
at_least r least = leb (rank least) (rank r)
