-- ===== src/Identity/Organizations/Created.antt =====
-- internal/identity/service.go: an org that is created has an owner.
use viro_coolify.Base.{String, Error, ok, str_eq, ◌≡◌, inl, inr, Bool-cases, eq_refl, arith}
use viro_coolify.Base.Table.{contains}
use viro_coolify.Base.Tally.{Once, tally-insert_new, insert-Once}
use viro_coolify.Domain.Access.{Role, Organization, Project}
use viro_coolify.Store.State.{MemoryStore}
use viro_coolify.Store.Session.{World}
use viro_coolify.Store.Session.Reads.{Leaves}
use viro_coolify.Store.Session.Outcomes.{
  Ends, Ends-ok, pure-Ends, throw-Ends, if-Ends, write-Ends, with_tx-Ends, >>=-Ends,
}
use viro_coolify.Store.Tenants.{membership_key, create_organization, add_membership, create_project}
use viro_coolify.Identity.Env.{Lib, Service, Fresh}
use viro_coolify.Identity.Members.Owners.{is_owner_of, Owned}
use viro_coolify.Identity.Projects.{create_default_project, default_row}
use viro_coolify.Identity.Organizations.{found_org, create_org, org_of}

abbrev Single : MemoryStore → Type 0
Single s = Once s.memberships

module _ (org : Organization) (user_id : String) (f : Fresh) where
  org-Single : (s : MemoryStore) → Single s → Leaves Single (create_organization s org)
  unfolding create_organization
  org-Single s o = elim (Bool-cases (contains org.id s.organizations)) [
    | inl e ↦ rw (create_organization, Leaves, e) tt
    | inr e ↦ rw (create_organization, Leaves, e) o
  ]

  member-Owned :
      (s : MemoryStore)
      → Single s
      → Leaves
          (Owned org.id)
          (add_membership s (record { org_id = org.id; user_id = user_id; role = Role.owner }))
  unfolding add_membership
  member-Owned s o = elim (Bool-cases (contains (membership_key org.id user_id) s.memberships)) [
    | inl e ↦ rw (add_membership, Leaves, e) tt
    | inr e ↦
        let counted =
          tally-insert_new (is_owner_of org.id) _
            (record { org_id = org.id; user_id = user_id; role = Role.owner }) s.memberships e in
        rw (add_membership, Leaves, e)
          (insert-Once _ _ s.memberships o, grind (arith, counted, eq_refl org.id))
  ]

  project-Owned :
      (s : MemoryStore)
      → Owned org.id s
      → Leaves (Owned org.id) (create_project s (default_row org.id f))
  unfolding create_project default_row
  project-Owned s o = elim (Bool-cases (contains f.third_id s.projects)) [
    | inl e ↦ rw (create_project, Leaves, e) tt
    | inr e ↦ rw (create_project, Leaves, e) o
  ]

  pub found_org-Owned : Ends Single (found_org org user_id f) (λ _. Owned org.id)
  unfolding found_org create_default_project
  found_org-Owned =
      >>=-Ends {A = Project} _ (λ _. Owned org.id) _ _ _
        (>>=-Ends {A = Unit {0}} _ (λ _. Owned org.id) _ _ _
          (>>=-Ends {A = Unit {0}} _ (λ _. Single) _ _ _ (write-Ends _ _ _ org-Single)
            (λ _. write-Ends _ _ _ member-Owned))
          (λ _.
            >>=-Ends {A = Unit {0}} _ (λ _. Owned org.id) _ _ _ (write-Ends _ _ _ project-Owned)
              (λ _. pure-Ends _ _ (default_row org.id f) (λ s o. o))))
        (λ p. pure-Ends _ _ tt (λ s o. o))

create_org-Ends :
    (lib : Lib) (svc : Service) (user_id name : String) (f : Fresh)
    → Ends Single (create_org lib svc user_id name f) (λ o. Owned o.id)
unfolding create_org
create_org-Ends lib svc user_id name f =
    let trimmed = lib.trim_space name in
    let org = org_of lib svc trimmed f.id f in
    if-Ends _ _ (str_eq trimmed "") _ _ (λ e. throw-Ends _ _ Error.invalid)
      (λ e.
        >>=-Ends {A = Unit {0}} _ (λ _. Owned f.other_id) _ _ _
          (with_tx-Ends _ _ _ (found_org-Owned org user_id f)) (λ _. pure-Ends _ _ org (λ s o. o)))

-- An org that CreateOrganization creates, whatever calls fail, has an owner, and each row of
-- the memberships stands under one key, where that holds of the keys before.
pub create_org-Owned :
    (lib : Lib) (svc : Service) (user_id name : String) (f : Fresh) (w : World) (org : Organization)
    → Once w.store.memberships
    → (create_org lib svc user_id name f w).0 ≡ ok org
    → Owned org.id (create_org lib svc user_id name f w).1.store
create_org-Owned lib svc user_id name f w org o won =
    Ends-ok _ _ _ w org (create_org-Ends lib svc user_id name f) o won
