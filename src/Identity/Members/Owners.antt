-- ===== src/Identity/Members/Owners.antt =====
-- An org with an owner keeps one, whatever is called and whatever fails.
use Prim.Native.Nat.{◌≤◌}
use viro_coolify.Base.{
  ℕ, ◌+◌, ◌≤◌, String, Bool, true, false, ◌&&◌, not, List, [], ◌∷◌, ok, leb, Error, str_eq, ◌≡◌,
  refl, ◌∙◌, ap, inl, inr, Bool-cases, Option-cases, or_error, arith,
}
use viro_coolify.Base.Table.{lookup, contains-lookup, values, select}
use viro_coolify.Base.Tally.{
  tally, one_if, Once, tally-insert, tally-erase, insert-Once, erase-Once, contains-none,
}
use viro_coolify.Domain.Access.{Role, Membership, valid, at_least}
use viro_coolify.Store.State.{MemoryStore}
use viro_coolify.Store.Session.{when}
use viro_coolify.Store.Session.Reads.{
  Reads, Leaves, weaker-Reads, pure-Reads, throw-Reads, >>=-Reads, read-Reads, on_not_found-Reads,
  if-Reads,
}
use viro_coolify.Store.Tenants.{
  membership_key, get_membership, list_memberships, update_membership_role, remove_membership,
}
use viro_coolify.Identity.Access.{authorize, is_owner}
use viro_coolify.Identity.Members.{count_owners, another_owner, may_change_role, may_remove}

-- The rows of an org's owners.
abbrev pub is_owner_of : String → Membership → Bool
is_owner_of org_id m = str_eq m.org_id org_id && is_owner m.role

abbrev pub owners : String → MemoryStore → ℕ
owners org_id s = tally (is_owner_of org_id) (values s.memberships)

-- The org has an owner, and each membership stands once.
abbrev pub Owned : String → MemoryStore → Type 0
Owned org_id t = Once t.memberships × (1 ≤ owners org_id t)

pub tally-select :
    (org_id : String) (ms : List Membership)
    → tally (λ m. is_owner m.role) (select (λ m. str_eq m.org_id org_id) ms)
      ≡ tally (is_owner_of org_id) ms
unfolding select
tally-select org_id [] = refl
tally-select org_id (m ∷ ms) = elim (Bool-cases (str_eq m.org_id org_id)) [
  | inl e ↦ rw (e, tally-select org_id ms) refl
  | inr e ↦ rw (e, tally-select org_id ms) (omega arith)
]

authorize-Reads :
    (s : MemoryStore) (user_id org_id : String) (least : Role)
    → Reads s (authorize user_id org_id least) (λ _. Unit {0})
unfolding authorize
authorize-Reads s user_id org_id least =
    >>=-Reads s (λ _. Unit {0}) _ _ _ (on_not_found-Reads s _ _ _ (read-Reads s _ _ (λ a e. tt)))
      (λ m _.
        if-Reads s _ (at_least m.role least) _ _ (λ _. pure-Reads s _ _ tt)
          (λ _. throw-Reads s _ _))

-- The count of owners after a row has changed from `of_org && was` to `of_org && is`.
still_owned :
    (of_org was is : Bool) {n k : ℕ}
    → 1 ≤ n
    → k + one_if (of_org && was) ≡ n + one_if (of_org && is)
    → (was && not is ≡ true → 2 ≤ n)
    → 1 ≤ k
still_owned of_org was true h e two = ground (arith, h, e)
still_owned of_org false false h e two = ground (arith, h, e)
still_owned false true false h e two = ground (arith, h, e)
still_owned true true false h e two = ground (arith, two refl, e)

module _ (org_id : String) (s : MemoryStore) where
  count_owners-Reads : Reads s (count_owners org_id) (λ n. n ≡ owners org_id s)
  unfolding count_owners list_memberships
  count_owners-Reads =
      >>=-Reads s (λ ms. ms ≡ select (λ m. str_eq m.org_id org_id) (values s.memberships)) _ _ _
        (read-Reads s _ _ (λ a e. ground (arith, e)))
        (λ ms e. pure-Reads s _ _ (ap (tally (λ m. is_owner m.role)) e ∙ tally-select org_id _))

  another_owner-Reads : Reads s (another_owner org_id) (λ _. 2 ≤ owners org_id s)
  unfolding another_owner
  another_owner-Reads =
      >>=-Reads s (λ n. n ≡ owners org_id s) _ _ _ count_owners-Reads
        (λ n e.
          if-Reads s _ (leb n 1) _ _ (λ _. throw-Reads s _ _)
            (λ h. pure-Reads s _ _ (ground (arith, h, e))))

  -- Where an owner ceases to be one, there are two at least.
  abbrev pub Spared : String → (Membership → Bool) → Type 0
  Spared target_id leaves =
      (m : Membership)
      → get_membership s org_id target_id ≡ ok m
      → leaves m ≡ true
      → 2 ≤ owners org_id s

  when_owner-Reads :
      (target_id : String) (m : Membership) (leaves : Membership → Bool)
      → get_membership s org_id target_id ≡ ok m
      → Reads s (when (leaves m) (another_owner org_id)) (λ _. Spared target_id leaves)
  when_owner-Reads target_id m leaves e =
      if-Reads s _ (leaves m) _ _
        (λ h. weaker-Reads s _ _ _ another_owner-Reads (λ _ two _ _ _. two))
        (λ h. pure-Reads s _ _ (λ n q o. ground (arith, e, q, h, o)))

  -- What the guards of the two operations make sure of before the write.
  pub may_change_role-Reads :
      (actor_id target_id : String) (role : Role)
      → Reads s
          (may_change_role actor_id org_id target_id role)
          (λ _. Spared target_id (λ m. is_owner m.role && not (is_owner role)))
  unfolding may_change_role get_membership
  may_change_role-Reads actor_id target_id role =
      >>=-Reads s (λ _. Unit {0}) _ _ _ (authorize-Reads s actor_id org_id Role.owner)
        (λ _ _.
          if-Reads s _ (not (valid role)) _ _ (λ _. throw-Reads s _ _)
            (λ _.
              >>=-Reads s (λ m. get_membership s org_id target_id ≡ ok m) _ _ _
                (on_not_found-Reads s _ _ _ (read-Reads s _ _ (λ a e. e)))
                (λ m e.
                  when_owner-Reads target_id m (λ m. is_owner m.role && not (is_owner role)) e)))

  pub may_remove-Reads :
      (actor_id target_id : String)
      → Reads s
          (may_remove actor_id org_id target_id)
          (λ _. Spared target_id (λ m. is_owner m.role))
  unfolding may_remove get_membership
  may_remove-Reads actor_id target_id =
      >>=-Reads s (λ _. Unit {0}) _ _ _ (authorize-Reads s actor_id org_id Role.owner)
        (λ _ _.
          >>=-Reads s (λ m. get_membership s org_id target_id ≡ ok m) _ _ _
            (on_not_found-Reads s _ _ _ (read-Reads s _ _ (λ a e. e)))
            (λ m e. when_owner-Reads target_id m (λ m. is_owner m.role) e))

  pub role-Owned :
      (target_id : String) (role : Role)
      → Owned org_id s
      → Spared target_id (λ m. is_owner m.role && not (is_owner role))
      → Leaves (Owned org_id) (update_membership_role s org_id target_id role)
  unfolding update_membership_role get_membership
  role-Owned target_id role (o, n) spared = elim (Option-cases (lookup key s.memberships)) [
    | inl e ↦ rw (update_membership_role, Leaves, e) tt
    | inr (m, e) ↦
        let counted =
          tally-insert (is_owner_of org_id) key m (record m { role = role }) s.memberships e in
        rw (update_membership_role, Leaves, e)
          (
            insert-Once key _ s.memberships o,
            still_owned (str_eq m.org_id org_id) (is_owner m.role) (is_owner role) n counted
                (λ h. spared m (ap (or_error Error.not_found) e) h),
          )
  ]
    where
      key : String
      key = membership_key org_id target_id

  pub removed-Owned :
      (target_id : String)
      → Owned org_id s
      → Spared target_id (λ m. is_owner m.role)
      → Leaves (Owned org_id) (remove_membership s org_id target_id)
  unfolding remove_membership get_membership
  removed-Owned target_id (o, n) spared =
      elim (Option-cases (lookup (membership_key org_id target_id) s.memberships)) [
        | inl e ↦ rw (remove_membership, Leaves, contains-none _ s.memberships e) tt
        | inr (m, e) ↦
            let counted = tally-erase (is_owner_of org_id) _ m s.memberships o e in
            rw (remove_membership, Leaves, contains-lookup _ s.memberships m e)
              (
                erase-Once _ s.memberships o,
                still_owned (str_eq m.org_id org_id) (is_owner m.role) false n
                    (grind (arith, counted))
                    (λ h. spared m (ap (or_error Error.not_found) e) (ground (arith, h))),
              )
      ]
