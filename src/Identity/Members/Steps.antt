-- ===== src/Identity/Members/Steps.antt =====
-- internal/identity/service.go: whatever happens to the members of an org, one step after another.
use Prim.Native.Nat.{◌≤◌}
use viro_coolify.Base.{◌≤◌, String, ok, ◌≡◌, sym, inl, inr, Bool-cases, arith}
use viro_coolify.Base.Table.{contains, values}
use viro_coolify.Base.Tally.{tally, Once, tally-insert_new, insert-Once}
use mathlib.Core.Path.{subst}
use viro_coolify.Domain.Access.{Role, Membership}
use viro_coolify.Store.State.{MemoryStore}
use viro_coolify.Store.Session.{World}
use viro_coolify.Store.Session.Reads.{Leaves, checked_write}
use viro_coolify.Store.Tenants.{membership_key, add_membership}
use viro_coolify.Identity.Members.{update_member_role, remove_member}
use viro_coolify.Identity.Members.Owners.{
  is_owner_of, Owned, may_change_role-Reads, may_remove-Reads, role-Owned, removed-Owned,
}

-- What happens to the members of an org: a call of one of the operations by anyone, with any calls
-- of the store failing, a member added, and whatever leaves the memberships as they are.
pub data Step (org_id : String) (s : MemoryStore) : MemoryStore → Type 0 where
  role_updated :
      (actor_id target_id : String) (role : Role) (w : World)
      → w.store ≡ s
      → Step org_id s (update_member_role actor_id org_id target_id role w).1.store
  member_removed :
      (actor_id target_id : String) (w : World)
      → w.store ≡ s
      → Step org_id s (remove_member actor_id org_id target_id w).1.store
  member_added : (m : Membership) {t : MemoryStore} → add_membership s m ≡ ok t → Step org_id s t
  elsewhere : {t : MemoryStore} → t.memberships ≡ s.memberships → Step org_id s t

pub data Reach (org_id : String) (s : MemoryStore) : MemoryStore → Type 0 where
  here : Reach org_id s s
  later : {t u : MemoryStore} → Reach org_id s t → Step org_id t u → Reach org_id s u

added-Owned :
    (org_id : String) (s : MemoryStore) (m : Membership)
    → Owned org_id s
    → Leaves (Owned org_id) (add_membership s m)
unfolding add_membership
added-Owned org_id s m (o, n) =
    elim (Bool-cases (contains (membership_key m.org_id m.user_id) s.memberships)) [
      | inl e ↦ rw (add_membership, Leaves, e) tt
      | inr e ↦
          rw (add_membership, Leaves, e)
            (
              insert-Once _ m s.memberships o,
              omega (arith, n, tally-insert_new (is_owner_of org_id) _ m s.memberships e),
            )
    ]

Step-Owned :
    (org_id : String) {s t : MemoryStore} → Step org_id s t → Owned org_id s → Owned org_id t
unfolding update_member_role remove_member
Step-Owned org_id {s} (role_updated actor_id target_id role w e) o =
    checked_write s (Owned org_id) _ _ _ _ (may_change_role-Reads org_id s actor_id target_id role)
      o (role-Owned org_id s target_id role o) w e
Step-Owned org_id {s} (member_removed actor_id target_id w e) o =
    checked_write s (Owned org_id) _ _ _ _ (may_remove-Reads org_id s actor_id target_id) o
      (removed-Owned org_id s target_id o) w e
Step-Owned org_id {s} (member_added m e) o =
    subst (Leaves (Owned org_id)) e (added-Owned org_id s m o)
Step-Owned org_id (elsewhere e) (o, n) =
    (subst Once (sym e) o, subst (λ ms. 1 ≤ tally (is_owner_of org_id) (values ms)) (sym e) n)

-- Where an org has an owner, and each row of the memberships stands under one key, it has an
-- owner, and each row stands under one key, after any number of steps one after another: calls
-- of UpdateMemberRole and RemoveMember for the org by anyone, in which any calls of the store
-- may fail, members that the store adds, and steps that leave the memberships as they are.
pub Reach-Owned :
    (org_id : String) {s t : MemoryStore} → Reach org_id s t → Owned org_id s → Owned org_id t
Reach-Owned org_id here o = o
Reach-Owned org_id (later r p) o = Step-Owned org_id p (Reach-Owned org_id r o)
