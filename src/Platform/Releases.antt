-- ===== src/Platform/Releases.antt =====
-- internal/platform/releases.go: the release history of an app. What a release keeps of the rendered
-- workload is `Snapshot`; its hash, which `configHash` computes with SHA-256, is an argument of the
-- snapshot. The id and the time that the service reads are arguments too.
pub mod Status
pub mod Retire
pub mod Revision
pub mod Current
pub mod Rollback
use viro_coolify.Base.{
  ℕ, zero, suc, String, Bool, true, false, ◌||◌, ◌&&◌, List, [], ◌∷◌, Option, none, some, Error,
  conflict, not, Result, ok, err, is_conflict, str_eq, if◌then◌else◌,
}
use viro_coolify.Base.Int.{ℤ, pos, ltb_ℤ, leb_ℤ, eqb_ℤ, ◌+64◌}
use viro_coolify.Base.Table.{find}
use viro_coolify.Domain.Scalar.{Time, Float64}
use viro_coolify.Domain.Deploy.{App, Release, ReleaseStatus}
use viro_coolify.Store.Page.{all_rows}
use viro_coolify.Store.Session.{M, World, pure, throw, ◌>>=◌, ◌>>◌, look, with_tx, read, write}
use viro_coolify.Store.Releases.{create_release, list_releases_by_app, update_release}

pub record Snapshot : Type 0 where
  pub image : String
  pub config_hash : String
  pub cpu : Float64
  pub memory_mb : ℤ

-- `r.Status == domain.ReleaseActive || r.Status == domain.ReleaseDeploying`, the test of
-- allocateAndInsertRelease, of CurrentRelease and of pickRollbackTarget
unfoldable pub is_current : Release → Bool
is_current r = elim r.status [
  | ReleaseStatus.active ↦ true
  | ReleaseStatus.deploying ↦ true
  | _ ↦ false
]

-- The largest revision and one, from a start on.
unfoldable pub next_revision : ℤ → List Release → ℤ
unfolding ◌+64◌
next_revision next [] = next
next_revision next (r ∷ rs) =
    next_revision (if leb_ℤ next r.revision then r.revision +64 pos 1 else next) rs

-- The writes of the loop over the existing releases.
unfoldable pub supersede : ReleaseStatus → List Release → M (Unit {0})
unfolding is_current
supersede status [] = pure tt
supersede status (r ∷ rs) =
    if is_current r
    then write (λ s. update_release s (record r { status = status })) >> supersede status rs
    else supersede status rs

-- `Service.allocateAndInsertRelease`
unfoldable pub allocate_and_insert_release :
    String → Time → App → Snapshot → String → ReleaseStatus → M Release
allocate_and_insert_release id now app w note superseded_status = do
  existing ← read (λ s. list_releases_by_app s app.id all_rows)
  supersede superseded_status existing
  let rel : Release = record {
    id = id;
    app_id = app.id;
    org_id = app.org_id;
    revision = next_revision (pos 1) existing;
    image = w.image;
    git_ref = app.git_branch;
    config_hash = w.config_hash;
    cpu = w.cpu;
    memory_mb = w.memory_mb;
    status = ReleaseStatus.active;
    note = note;
    created_at = now;
  }
  write (λ s. create_release s rel)
  pure rel

-- The loop of `recordRelease`, with so many attempts left; each draws an id of its own.
unfoldable pub record_attempts :
    (ℕ → String) → Time → App → Snapshot → String → ReleaseStatus → ℕ → M Release
record_attempts ids now app w note superseded_status zero = throw conflict
record_attempts ids now app w note superseded_status (suc n) = do
  r ← look (with_tx (allocate_and_insert_release (ids n) now app w note superseded_status))
  elim r [
    | ok rel ↦ pure rel
    | err e ↦
        if is_conflict e then record_attempts ids now app w note superseded_status n else throw e
  ]

-- `Service.recordRelease`
unfoldable pub record_release :
    (ℕ → String) → Time → App → Snapshot → String → ReleaseStatus → M Release
unfolding record_attempts
record_release ids now app w note superseded_status =
    record_attempts ids now app w note superseded_status 5

-- The first release, in the order given, that is current.
unfoldable pub first_current : List Release → Option Release
unfolding is_current
first_current rels = find is_current rels

-- `Service.CurrentRelease`
unfoldable pub current_release : String → M (Option Release)
current_release app_id =
    read (λ s. list_releases_by_app s app_id all_rows) >>= λ rels. pure (first_current rels)

-- The target of a machine status.
unfoldable pub release_target : String → Option ReleaseStatus
release_target machine_status =
    if str_eq machine_status "running"
    then some ReleaseStatus.active
    else if str_eq machine_status "failed"
    then some ReleaseStatus.failed
    else none

-- `cur.Status == target`, where the target is active or failed.
unfoldable pub same_status : ReleaseStatus → ReleaseStatus → Bool
same_status ReleaseStatus.active ReleaseStatus.active = true
same_status ReleaseStatus.failed ReleaseStatus.failed = true
same_status _ _ = false

abbrev move_to : ReleaseStatus → Option Release → M (Unit {0})
move_to target none = pure tt
move_to target (some cur) =
    if same_status cur.status target
    then pure tt
    else write (λ s. update_release s (record cur { status = target }))

-- `Service.ReconcileReleaseStatus`
unfoldable pub reconcile_release_status : String → String → M (Unit {0})
reconcile_release_status app_id machine_status = elim (release_target machine_status) [
  | none ↦ pure tt
  | some target ↦ current_release app_id >>= move_to target
]

-- `pickRollbackTarget`
unfoldable pub pick_rollback_target : List Release → ℤ → Option Release
pick_rollback_target rels revision =
    if ltb_ℤ (pos 0) revision
    then find (λ r. eqb_ℤ r.revision revision) rels
    else find (λ r. not (is_current r)) rels
