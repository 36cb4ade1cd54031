-- ===== src/Identity/Invitations/Joined.antt =====
-- internal/identity/service.go: what an invitation gives, in the org and in a project.
use viro_coolify.Base.{
  String, true, not, none, some, Option, Error, Result, ok, err, or_error, is_not_found,
  is_conflict, str_eq, ◌≡◌, ◌⊎◌, refl, ◌∙◌, sym, ap, inl, inr, Bool-cases, ◌≢◌, eq_iff, eq_refl,
  arith,
}
use viro_coolify.Base.Table.{lookup, insert, contains, lookup-insert, contains-some, contains-none}
use mathlib.Core.Path.{subst}
use viro_coolify.Domain.Access.{Role, Membership, Invitation, InvitationStatus, ProjectMembership}
use viro_coolify.Store.State.{MemoryStore}
use viro_coolify.Store.Session.{◌>>=◌, look, write, when}
use viro_coolify.Store.Session.Reads.{Leaves}
use viro_coolify.Store.Session.Outcomes.{
  Ends, pure-Ends, throw-Ends, if-Ends, write-Ends, look_write-Ends, Seen, >>=-Ends,
}
use viro_coolify.Store.Tenants.{
  membership_key, get_membership, add_membership, add_project_membership, update_invitation,
}
use viro_coolify.Identity.Invitations.{join_org, unless_conflict, granted}

-- The role that an invitation gives a new member of the org: its own, or, where it is for a project,
-- only that of a member.
abbrev pub IsGranted : Invitation → Role → Type 0
IsGranted inv r =
    ((inv.project_id ≡ "") × (r ≡ inv.role)) ⊎ ((inv.project_id ≢ "") × (r ≡ Role.member))

granted-IsGranted : (inv : Invitation) (user_id : String) → IsGranted inv (granted inv user_id).role
granted-IsGranted inv user_id = elim (Bool-cases (str_eq inv.project_id "")) [
  | inl e ↦ rw e (inl ((eq_iff inv.project_id "").0 e, refl))
  | inr e ↦ rw e (inr (λ q. ground (arith, e, (eq_iff inv.project_id "").1 q), refl))
]

-- `was` and `had` are what the store has for the user in the org and in the project before.
module _ (inv : Invitation) (user_id : String) (was : Result Membership)
    (had : Option ProjectMembership) where
  -- A member keeps the role.
  abbrev RoleAfter : Result Membership → Role → Type 0
  RoleAfter (ok m) r = r ≡ m.role
  RoleAfter (err e) r = IsGranted inv r

  abbrev pub IsMember : MemoryStore → Type 0
  IsMember s =
      (m : Membership) × (get_membership s inv.org_id user_id ≡ ok m) × RoleAfter was m.role

  abbrev SeatAfter : Option ProjectMembership → ProjectMembership → Type 0
  SeatAfter (some old) p = p ≡ old
  SeatAfter none p = p.role ≡ inv.role

  abbrev seat_of : MemoryStore → Option ProjectMembership
  seat_of s = lookup (membership_key inv.project_id user_id) s.project_members

  -- What an invitation to a project gives besides: a member of it stays as before, and a new one gets
  -- the role of the invitation.
  abbrev pub InProject : MemoryStore → Type 0
  InProject s =
      (inv.project_id ≡ "") ⊎ ((p : ProjectMembership) × (seat_of s ≡ some p) × SeatAfter had p)

  -- The user is in, and the invitation is used up.
  abbrev pub IsAccepted : MemoryStore → Type 0
  IsAccepted s =
      IsMember s
      × InProject s
      × (lookup inv.id s.invitations ≡ some (record inv { status = InvitationStatus.accepted }))

  abbrev pub Before : MemoryStore → Type 0
  Before s = (get_membership s inv.org_id user_id ≡ was) × (seat_of s ≡ had)

  abbrev pub Joined : MemoryStore → Type 0
  Joined s = IsMember s × (seat_of s ≡ had)

  written :
      (key : String) (s : MemoryStore)
      → lookup key (insert key (granted inv user_id) s.memberships) ≡ some (granted inv user_id)
  written key s = lookup-insert key key (granted inv user_id) s.memberships ∙ rw (eq_refl key) refl

  add_membership-Joined :
      (s : MemoryStore)
      → Before s
      → (e : Error) → was ≡ err e
      → Leaves Joined (add_membership s (granted inv user_id))
  unfolding add_membership get_membership
  add_membership-Joined s b e q =
      elim (Bool-cases (contains (membership_key inv.org_id user_id) s.memberships)) [
        | inl d ↦ rw (add_membership, Leaves, d) tt
        | inr d ↦
            rw (add_membership, Leaves, d)
              (
                (
                  granted inv user_id,
                  ap (or_error Error.not_found) (written (membership_key inv.org_id user_id) s),
                  subst (λ r. RoleAfter r (granted inv user_id).role) (sym q)
                      (granted-IsGranted inv user_id),
                ),
                b.1,
              )
      ]

  pub join_org-Ends :
      (r : Result Membership)
      → was ≡ r
      → Ends Before (join_org (granted inv user_id) r) (λ _. Joined)
  join_org-Ends (ok m) q =
      pure-Ends _ _ tt (λ s b. ((m, b.0 ∙ q, subst (λ r. RoleAfter r m.role) (sym q) refl), b.1))
  join_org-Ends (err e) q =
      if-Ends _ _ (is_not_found e) _ _
        (λ _. write-Ends _ _ _ (λ s b. add_membership-Joined s b e q)) (λ _. throw-Ends _ _ e)

  pub update-IsAccepted :
      (s : MemoryStore)
      → IsMember s × InProject s
      → Leaves IsAccepted (update_invitation s (record inv { status = InvitationStatus.accepted }))
  unfolding update_invitation get_membership
  update-IsAccepted s (m, p) = elim (Bool-cases (contains inv.id s.invitations)) [
    | inl d ↦
        rw (update_invitation, Leaves, d)
          (m, p, lookup-insert inv.id inv.id _ s.invitations ∙ rw (eq_refl inv.id) refl)
    | inr d ↦ rw (update_invitation, Leaves, d) tt
  ]

  -- What the outcome of joining the project says.
  abbrev Tried : Result (Unit {0}) → MemoryStore → Type 0
  Tried (ok u) s = IsMember s × InProject s
  Tried (err e) s = is_conflict e ≡ true → IsMember s × InProject s

  abbrev seat : ProjectMembership
  seat = record { project_id = inv.project_id; user_id = user_id; role = inv.role }

  add_project_membership-Tried :
      (s : MemoryStore) → Joined s → Seen Joined Tried s (add_project_membership s seat)
  unfolding add_project_membership get_membership
  add_project_membership-Tried s (m, h) =
      elim (Bool-cases (contains (membership_key inv.project_id user_id) s.project_members)) [
        | inl d ↦
            let (p, e) =
              contains-some (membership_key inv.project_id user_id) s.project_members d in
            rw (add_project_membership, Seen, d)
              (λ _. (m, inr (p, e, subst (λ o. SeatAfter o p) (sym e ∙ h) refl)))
        | inr d ↦
            let e = contains-none (membership_key inv.project_id user_id) s.project_members d in
            rw (add_project_membership, Seen, d)
              (
                m,
                inr (
                  seat,
                  lookup-insert _ _ seat s.project_members
                      ∙ rw (eq_refl (membership_key inv.project_id user_id)) refl,
                  subst (λ o. SeatAfter o seat) (sym e ∙ h) refl,
                ),
              )
      ]

  unless_conflict-Ends :
      (r : Result (Unit {0})) → Ends (Tried r) (unless_conflict r) (λ _ s. IsMember s × InProject s)
  unless_conflict-Ends (ok u) = pure-Ends _ _ tt (λ s i. i)
  unless_conflict-Ends (err e) =
      if-Ends _ _ (is_conflict e) _ _ (λ c. pure-Ends _ _ tt (λ s i. i c)) (λ _. throw-Ends _ _ e)

  pub project-Ends :
      Ends Joined
        (when
          (not (str_eq inv.project_id ""))
          (look (write (λ s. add_project_membership s seat)) >>= λ a. unless_conflict a))
        (λ _ s. IsMember s × InProject s)
  project-Ends =
      if-Ends _ _ (not (str_eq inv.project_id "")) _ _
        (λ _.
          >>=-Ends {A = Result (Unit {0})} _ Tried _
            (look (write (λ s. add_project_membership s seat))) _
            (look_write-Ends _ _ _ add_project_membership-Tried (λ s i c. ground (arith, c)))
            unless_conflict-Ends)
        (λ none.
          pure-Ends _ _ tt
            (λ s m. (m.0, inl ((eq_iff inv.project_id "").0 (ground (arith, none))))))
