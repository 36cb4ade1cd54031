-- ===== src/Platform/Releases/Current.antt =====
-- After a deploy is recorded, the new release is the app's only current one.
use mathlib.Core.Path.{subst}
use viro_coolify.Base.{
  String, Bool, true, false, List, some, ok, ◌≡◌, refl, sym, ◌∙◌, inl, inr, str_eq, arith, eq_iff,
  Bool-cases,
}
use viro_coolify.Base.Int.{pos}
use viro_coolify.Base.Table.{lookup, insert, contains, values, lookup-insert}
use viro_coolify.Base.Member.{All}
use viro_coolify.Domain.Scalar.{Time}
use viro_coolify.Domain.Deploy.{App, Release, ReleaseStatus}
use viro_coolify.Store.State.{MemoryStore}
use viro_coolify.Store.Session.{Increment, calm, read, write}
use viro_coolify.Store.Releases.{create_release}
use viro_coolify.Platform.Releases.{
  Snapshot, is_current, next_revision, allocate_and_insert_release,
}
use viro_coolify.Platform.Releases.Status.{InForce, InForce-is_current}
use viro_coolify.Platform.Releases.Revision.{
  HasNext, IsBelow, next_revision_above, history, list_releases_all, history-Mem, history-All,
  next-IsFree,
}
use viro_coolify.Platform.Releases.Retire.{
  retired, retired-contains, with_releases, Present, IsPastStatus, supersede_lem, retired-Mem,
  retired-or-kept, Keyed, Keyed-at, Keyed-Present,
}

-- No release of the app is current once its history is retired.
history-retired :
    (status : ReleaseStatus) (app_id : String) (m : List (String × Release))
    → IsPastStatus status
    → Keyed m
    → (k : String) (r : Release) → lookup k (retired status (history app_id m) m) ≡ some r
    → str_eq r.app_id app_id ≡ true
    → is_current r ≡ false
history-retired status app_id m p keyed k r h a =
    elim (retired-or-kept status p (history app_id m) k m) [
      | inr past ↦ past r h
      | inl e ↦ elim (Bool-cases (is_current r)) [
        | inr c ↦ c
        | inl c ↦
            let was : lookup k m ≡ some r = sym e ∙ h in
            retired-Mem status p (history app_id m) k m r (history-Mem app_id k r m was a)
              (Keyed-at k r m keyed was) c r h
      ]
    ]

module _ (id : String) (now : Time) (app : App) (w : Snapshot) (note : String)
    (status : ReleaseStatus) (s : MemoryStore) where
  abbrev pub new_release : Release
  new_release = record {
    id = id;
    app_id = app.id;
    org_id = app.org_id;
    revision = next_revision (pos 1) (history app.id s.releases);
    image = w.image;
    git_ref = app.git_branch;
    config_hash = w.config_hash;
    cpu = w.cpu;
    memory_mb = w.memory_mb;
    status = ReleaseStatus.active;
    note = note;
    created_at = now;
  }

  abbrev pub recorded : List (String × Release)
  recorded = insert id new_release (retired status (history app.id s.releases) s.releases)

  allocate_lem :
      (is : List Increment)
      → Keyed s.releases
      → contains id s.releases ≡ false
      → All HasNext (values s.releases)
      → allocate_and_insert_release id now app w note status (calm s is)
        ≡ (ok new_release, calm (with_releases s recorded) is)
  unfolding allocate_and_insert_release read write create_release
  allocate_lem is keyed fresh bounded =
      rw
        (
          list_releases_all s app.id,
          supersede_lem status (history app.id s.releases) s is present,
          retired-contains status id (history app.id s.releases) s.releases present,
          fresh,
          next-IsFree status app.id s.releases bounded,
        )
        refl
    where
      present : All (Present s.releases) (history app.id s.releases)
      present = history-All (Present s.releases) app.id s.releases (Keyed-Present s.releases keyed)

  -- In a table that keeps each release under its id, where the new id is not taken and no revision is
  -- the largest int, a deploy is recorded with an active release under a revision above all of the
  -- app's, and no other release of the app is active or deploying afterwards; where the status that earlier ones
  -- get is not a current one, and no call fails.
  pub allocate_only_current :
      (is : List Increment)
      → Keyed s.releases
      → contains id s.releases ≡ false
      → All HasNext (values s.releases)
      → IsPastStatus status
      → let (r, after) = allocate_and_insert_release id now app w note status (calm s is) in
        (r ≡ ok new_release)
        × (lookup id after.store.releases ≡ some new_release)
        × All (IsBelow new_release.revision) (history app.id s.releases)
        × ((k : String) (q : Release)
            → lookup k after.store.releases ≡ some q
            → str_eq q.app_id app.id ≡ true
            → InForce q.status
            → k ≡ id)
  allocate_only_current is keyed fresh bounded past = rw (allocate_lem is keyed fresh bounded) (
    refl,
    lookup-insert id id new_release _ ∙ rw ((eq_iff id id).1 refl) refl,
    above,
    λ k q h a c. others k q h a (InForce-is_current q c),
  )
    where
      above : All (IsBelow new_release.revision) (history app.id s.releases)
      above =
          let (n, e, a, below) =
            next_revision_above 1 (history app.id s.releases) (omega arith)
              (history-All HasNext app.id s.releases bounded) in
          subst (λ v. All (IsBelow v) (history app.id s.releases)) (sym e) below

      others :
          (k : String) (q : Release)
          → lookup k recorded ≡ some q
          → str_eq q.app_id app.id ≡ true
          → is_current q ≡ true
          → k ≡ id
      others k q h a c = elim (Bool-cases (str_eq id k)) [
        | inl e ↦ sym ((eq_iff id k).0 e)
        | inr e ↦ absurd (
            clash
              (history-retired status app.id s.releases past keyed k q
                (sym (lookup-insert id k new_release _ ∙ rw e refl) ∙ h) a)
              c)
      ]
        where
          clash : {b : Bool} → b ≡ false → ¬ (b ≡ true)
          clash f t = ground arith
