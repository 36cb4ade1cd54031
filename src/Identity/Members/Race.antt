-- ===== src/Identity/Members/Race.antt =====
-- internal/identity/service.go: two changes of a member's role at once. The service reads the owners
-- in one call of the store and writes in another, and no transaction holds the two together.
use viro_coolify.Base.{String, true, false, [], ok, some, str_eq, ◌≡◌, refl, ◌∙◌, ap, arith}
use viro_coolify.Base.Table.{lookup, insert, values, lookup-insert}
use viro_coolify.Base.Tally.{tally-insert}
use viro_coolify.Domain.Access.{Role, Membership, valid, at_least, rank}
use viro_coolify.Store.State.{MemoryStore}
use viro_coolify.Store.Session.{M, calm, ◌>>◌, read, write, may_fail}
use viro_coolify.Store.Tenants.{
  membership_key, get_membership, list_memberships, update_membership_role,
}
use viro_coolify.Identity.Access.{authorize}
use viro_coolify.Identity.Members.{count_owners, another_owner, may_change_role}
use viro_coolify.Identity.Members.Owners.{is_owner_of, owners, tally-select}

-- Two calls of `UpdateMemberRole` that make each other a plain member, with their steps in the order
-- check, check, write, write.
unfoldable pub demote_each_other : String → String → String → M (Unit {0})
unfolding may_change_role
demote_each_other org_id a b =
    may_change_role a org_id b Role.member
    >> may_change_role b org_id a Role.member
    >> write (λ s. update_membership_role s org_id b Role.member)
    >> write (λ s. update_membership_role s org_id a Role.member)

module _ (org_id a b : String) (s : MemoryStore) (ma mb : Membership)
    (at_a : lookup (membership_key org_id a) s.memberships ≡ some ma)
    (at_b : lookup (membership_key org_id b) s.memberships ≡ some mb)
    (owner_a : ma.role ≡ Role.owner) (owner_b : mb.role ≡ Role.owner)
    (in_a : str_eq ma.org_id org_id ≡ true) (in_b : str_eq mb.org_id org_id ≡ true)
    (apart : str_eq (membership_key org_id b) (membership_key org_id a) ≡ false)
    (two : owners org_id s ≡ 2) where
  counted : count_owners org_id (calm s []) ≡ (ok 2, calm s [])
  unfolding count_owners list_memberships read may_fail
  counted = ap (λ n. (ok n, calm s [])) (tally-select org_id (values s.memberships) ∙ two)

  check_b : may_change_role a org_id b Role.member (calm s []) ≡ (ok tt, calm s [])
  unfolding may_change_role authorize get_membership read may_fail another_owner at_least valid rank
  check_b =
      rw (may_change_role, authorize, at_a, owner_a, at_b, owner_b, another_owner, counted) refl

  check_a : may_change_role b org_id a Role.member (calm s []) ≡ (ok tt, calm s [])
  unfolding may_change_role authorize get_membership read may_fail another_owner at_least valid rank
  check_a =
      rw (may_change_role, authorize, at_b, owner_b, at_a, owner_a, another_owner, counted) refl

  abbrev demoted : Membership → Membership
  demoted m = record m { role = Role.member }

  abbrev after_b : MemoryStore
  after_b = record s { memberships = insert (membership_key org_id b) (demoted mb) s.memberships }

  abbrev after : MemoryStore
  after = record after_b {
    memberships = insert (membership_key org_id a) (demoted ma) after_b.memberships;
  }

  read_a : lookup (membership_key org_id a) after_b.memberships ≡ some ma
  read_a = rw (lookup-insert, apart) at_a

  run : demote_each_other org_id a b (calm s []) ≡ (ok tt, calm after [])
  unfolding demote_each_other write may_fail update_membership_role
  run = rw (demote_each_other, check_b, check_a, update_membership_role, at_b, read_a) refl

  none_left : owners org_id after ≡ 0
  none_left = ground (
    arith,
    tally-insert (is_owner_of org_id) _ mb (demoted mb) s.memberships at_b,
    tally-insert (is_owner_of org_id) _ ma (demoted ma) after_b.memberships read_a,
    owner_a,
    owner_b,
    in_a,
    in_b,
    two,
  )

  -- Where an org has exactly two owners, rows of the org under different keys, and no call
  -- fails, two calls of UpdateMemberRole by which each owner demotes the other, with both
  -- checks before both writes, both succeed and leave the org with no owner.
  pub demote_each_other_orphans :
      let (r, w) = demote_each_other org_id a b (calm s []) in
      (r ≡ ok tt) × (owners org_id w.store ≡ 0)
  demote_each_other_orphans = rw run (refl, none_left)
