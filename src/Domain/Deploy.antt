-- ===== src/Domain/Deploy.antt =====
-- internal/domain/domain.go: apps, releases, builds, custom domains, databases and services.
use Prim.Native.String.{String}
use mathlib.Core.Bool.{Bool}
use viro_coolify.Base.Int.{ℤ}
use viro_coolify.Domain.Scalar.{Time, Float64}

-- `ReleaseStatus`. A stored text outside the constants is `other`.
pub data ReleaseStatus : Type 0 where
  deploying active failed superseded rolled_back : ReleaseStatus
  other : String → ReleaseStatus

-- `BuildStatus`. A stored text outside the constants is `other`.
pub data BuildStatus : Type 0 where
  pending building succeeded failed : BuildStatus
  other : String → BuildStatus

-- `DomainStatus`. A stored text outside the constants is `other`.
pub data DomainStatus : Type 0 where
  pending verified failed : DomainStatus
  other : String → DomainStatus

pub record App : Type 0 where
  pub id : String
  pub org_id : String
  pub project_id : String
  pub name : String
  pub image : String
  pub git_repository : String
  pub git_branch : String
  pub build_pack : String
  pub cpu : Float64
  pub memory_mb : ℤ
  pub status : String
  pub min_replicas : ℤ
  pub max_replicas : ℤ
  pub region : String
  pub namespace : String
  pub release : String
  pub host : String
  pub created_at : Time

pub record Release : Type 0 where
  pub id : String
  pub app_id : String
  pub org_id : String
  pub revision : ℤ
  pub image : String
  pub git_ref : String
  pub config_hash : String
  pub cpu : Float64
  pub memory_mb : ℤ
  pub status : ReleaseStatus
  pub note : String
  pub created_at : Time

pub record Service : Type 0 where
  pub id : String
  pub org_id : String
  pub project_id : String
  pub template : String
  pub name : String
  pub cpu : Float64
  pub memory_mb : ℤ
  pub status : String
  pub region : String
  pub namespace : String
  pub release : String
  pub host : String
  pub created_at : Time

pub record Build : Type 0 where
  pub id : String
  pub app_id : String
  pub org_id : String
  pub status : BuildStatus
  pub commit_ref : String
  pub image : String
  pub logs : String
  pub created_at : Time
  pub finished_at : Time

pub record Domain : Type 0 where
  pub id : String
  pub org_id : String
  pub app_id : String
  pub domain : String
  pub verified : Bool
  pub status : DomainStatus
  pub verification_token : String
  pub verified_at : Time
  pub created_at : Time

pub record AppEnvEntry : Type 0 where
  pub key : String
  pub value : String
  pub secret : Bool

pub record Database : Type 0 where
  pub id : String
  pub org_id : String
  pub project_id : String
  pub name : String
  pub engine : String
  pub cpu : Float64
  pub memory_mb : ℤ
  pub storage_gb : ℤ
  pub status : String
  pub username : String
  pub password : String
  pub database_name : String
  pub region : String
  pub namespace : String
  pub release : String
  pub host : String
  pub created_at : Time

pub record ServiceTemplate : Type 0 where
  pub key : String
  pub name : String
  pub description : String
  pub category : String
  pub kind : String
  pub image : String
  pub default_port : ℤ
  pub active : Bool
  pub sort_order : ℤ
