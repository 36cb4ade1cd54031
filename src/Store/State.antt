-- ===== src/Store/State.antt =====
-- internal/store/memory.go: the state of the in-memory store. The lock is left out: each operation
-- below runs under it from its first line to its last, so operations happen one after another.
use viro_coolify.Base.{String, Bool, Option, List}
use viro_coolify.Base.Table.{Table}
use viro_coolify.Domain.Access.{
  User, Organization, Membership, Project, ProjectMembership, Invitation, RefreshToken, ApiToken,
  PasswordResetToken, AuditEvent,
}
use viro_coolify.Domain.Billing.{
  Subscription, UsageRecord, MeterState, UsageReportState, Plan, PricingComponent, PlatformSettings,
}
use viro_coolify.Domain.Deploy.{App, Release, Service, Build, Domain, Database, ServiceTemplate}

-- `envEntry`
pub record EnvEntry : Type 0 where
  pub value : String
  pub secret : Bool

pub record MemoryStore : Type 0 where
  pub users : Table User
  pub users_by_email : Table String
  pub organizations : Table Organization
  pub memberships : Table Membership
  pub apps : Table App
  pub builds : Table Build
  pub releases : Table Release
  pub databases : Table Database
  pub subscriptions : Table Subscription
  pub usage : Table (List UsageRecord)
  pub projects : Table Project
  pub project_members : Table ProjectMembership
  pub invitations : Table Invitation
  pub services : Table Service
  pub app_env : Table (Table EnvEntry)
  pub audit_events : List AuditEvent
  pub domains : Table Domain
  pub plans : Table Plan
  pub templates : Table ServiceTemplate
  pub pricing : Table PricingComponent
  pub refresh_tokens : Table RefreshToken
  pub reset_tokens : Table PasswordResetToken
  pub api_tokens : Table ApiToken
  pub settings : PlatformSettings
  pub processed_evts : Table (Unit {0})
  pub meter_state : Option MeterState
  pub report_state : Table UsageReportState
