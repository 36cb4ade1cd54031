-- ===== src/Tests/Members.antt =====
-- The theorems on the members of an org at a team of two owners.
use viro_coolify.Base.{false, [], ◌∷◌, some, ok, ◌≡◌, refl, str_eq, arith}
use viro_coolify.Base.Table.{lookup, contains, values}
use viro_coolify.Domain.Access.{Role, Membership}
use viro_coolify.Store.State.{MemoryStore}
use viro_coolify.Store.Session.{calm}
use viro_coolify.Store.Tenants.{membership_key}
use viro_coolify.Identity.Members.{update_member_role}
use viro_coolify.Identity.Members.Owners.{owners, Owned}
use viro_coolify.Identity.Members.Steps.{Step, Reach, Reach-Owned}
use viro_coolify.Identity.Members.Race.{demote_each_other, demote_each_other_orphans}
use viro_coolify.Tests.Data.{empty}

-- Two owners

abbrev alice : Membership
alice = record { org_id = "org"; user_id = "alice"; role = Role.owner }

abbrev bob : Membership
bob = record { org_id = "org"; user_id = "bob"; role = Role.owner }

abbrev team : MemoryStore
team = record empty { memberships = ("org\0alice", alice) ∷ ("org\0bob", bob) ∷ [] }

team-Owned : Owned "org" team
unfolding contains values
team-Owned = ((refl, (refl, tt)), omega arith)

Reach-Owned_example :
    Owned "org" (update_member_role "alice" "org" "bob" Role.member (calm team [])).1.store
Reach-Owned_example =
    Reach-Owned "org"
      (Reach.later Reach.here (Step.role_updated "alice" "bob" Role.member (calm team []) refl))
      team-Owned

alice_at : lookup (membership_key "org" "alice") team.memberships ≡ some alice
unfolding lookup membership_key
alice_at = refl

bob_at : lookup (membership_key "org" "bob") team.memberships ≡ some bob
unfolding lookup membership_key
bob_at = refl

two_keys : str_eq (membership_key "org" "bob") (membership_key "org" "alice") ≡ false
unfolding membership_key
two_keys = refl

two_owners : owners "org" team ≡ 2
unfolding values
two_owners = refl

demote_each_other_orphans_example :
    let (r, w) = demote_each_other "org" "alice" "bob" (calm team []) in
    (r ≡ ok tt) × (owners "org" w.store ≡ 0)
demote_each_other_orphans_example =
    demote_each_other_orphans "org" "alice" "bob" team alice bob alice_at bob_at refl refl refl refl
      two_keys two_owners
