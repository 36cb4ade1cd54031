-- ===== src/Store/Users/Index.antt =====
-- internal/store/memory.go: the index of users by e-mail, and the plain look-up that it stands for.
use mathlib.Core.Path.{subst}
use viro_coolify.Base.{
  String, true, false, none, some, Option, Result, ok, err, not_found, str_eq, ◌≡◌, ◌↔◌, refl, ◌∙◌,
  sym, ap, inl, inr, Bool-cases, Option-cases, eq_iff, eq_refl, arith,
}
use viro_coolify.Base.Table.{Table, lookup, insert, contains, lookup-insert, contains-lookup}
use viro_coolify.Domain.Access.{User}
use viro_coolify.Store.State.{MemoryStore}
use viro_coolify.Store.Session.Reads.{Leaves}
use viro_coolify.Store.Session.Outcomes.{ok_injective}
use viro_coolify.Store.Users.{create_user, update_user, get_user_by_email}

some_injective : {A : Type 0} {a b : A} → Option.some a ≡ some b → a ≡ b
some_injective {A} {a} {b} q = ap (λ o. elim o [ some x ↦ x | none ↦ a ]) q

same_text : (a b : String) → str_eq a b ≡ true → a ≡ b
same_text a b e = ground (arith, eq_iff a b)

module _ {V : Type 0} where
  -- What a key reads that was written, and any other key.
  written :
      (k j : String) (v : V) (m : Table V) → str_eq k j ≡ true → lookup j (insert k v m) ≡ some v
  written k j v m e = lookup-insert k j v m ∙ rw e refl

  apart :
      (k j : String) (v : V) (m : Table V)
      → str_eq k j ≡ false
      → lookup j (insert k v m) ≡ lookup j m
  apart k j v m e = lookup-insert k j v m ∙ rw e refl

  new_key :
      (k j : String) (v : V) (m : Table V)
      → contains k m ≡ false
      → lookup j m ≡ some v
      → str_eq k j ≡ false
  new_key k j v m h e = ground (arith, h, eq_iff k j, contains-lookup j m v e)

module _ (to_lower : String → String) where
  -- A user with an address, whatever its case, under some id.
  abbrev pub HasAddress : MemoryStore → String → User → Type 0
  HasAddress s email u =
      (id : String) × (lookup id s.users ≡ some u) × (to_lower u.email ≡ to_lower email)

  -- The index leads to the user of each address, and nowhere else.
  abbrev pub Leads : MemoryStore → Type 0
  Leads s =
      (e id : String)
      → lookup e s.users_by_email ≡ some id
      → (u : User) × (lookup id s.users ≡ some u) × (to_lower u.email ≡ e)

  abbrev pub Covers : MemoryStore → Type 0
  Covers s =
      (id : String) (u : User)
      → lookup id s.users ≡ some u
      → lookup (to_lower u.email) s.users_by_email ≡ some id

  abbrev pub Indexed : MemoryStore → Type 0
  Indexed s = Leads s × Covers s

  module _ (s : MemoryStore) (u : User) where
    abbrev with_user : MemoryStore
    with_user = record s {
      users = insert u.id u s.users;
      users_by_email = insert (to_lower u.email) u.id s.users_by_email;
    }

    with_user-Leads :
        contains (to_lower u.email) s.users_by_email ≡ false
        → contains u.id s.users ≡ false
        → Leads s
        → Leads with_user
    with_user-Leads free new leads e id h = elim (Bool-cases (str_eq (to_lower u.email) e)) [
      | inl q ↦ (
        u,
        written u.id id u s.users (
            ground (
              arith,
              eq_iff u.id id,
              some_injective (sym (written _ e u.id s.users_by_email q) ∙ h),
            )),
        same_text _ e q,
      )
      | inr q ↦
          let (v, at, same) = leads e id (sym (apart _ e u.id s.users_by_email q) ∙ h) in
          (v, apart u.id id u s.users (new_key u.id id v s.users new at) ∙ at, same)
    ]

    with_user-Covers :
        contains (to_lower u.email) s.users_by_email ≡ false
        → contains u.id s.users ≡ false
        → Covers s
        → Covers with_user
    with_user-Covers free new covers id v h = elim (Bool-cases (str_eq u.id id)) [
      | inl q ↦
          let same = some_injective (sym (written u.id id u s.users q) ∙ h) in
          subst (λ x. lookup (to_lower x.email) with_user.users_by_email ≡ some id) same
            (subst (λ i. lookup (to_lower u.email) with_user.users_by_email ≡ some i)
              (same_text u.id id q)
              (written (to_lower u.email) _ u.id s.users_by_email (eq_refl (to_lower u.email))))
      | inr q ↦
          let at = covers id v (sym (apart u.id id u s.users q) ∙ h) in
          apart _ (to_lower v.email) u.id s.users_by_email
            (new_key (to_lower u.email) (to_lower v.email) id s.users_by_email free at)
          ∙ at
    ]

    create_user-Indexed : Indexed s → Leaves Indexed (create_user to_lower s u)
    unfolding create_user
    create_user-Indexed (leads, covers) =
        elim (Bool-cases (contains (to_lower u.email) s.users_by_email)) [
          | inl e ↦ rw (create_user, Leaves, e) tt
          | inr e ↦ elim (Bool-cases (contains u.id s.users)) [
            | inl n ↦ rw (create_user, Leaves, e, n) tt
            | inr n ↦
                rw (create_user, Leaves, e, n)
                  (with_user-Leads e n leads, with_user-Covers e n covers)
          ]
        ]

    module _ (existing : User) (at : lookup u.id s.users ≡ some existing) where
      abbrev updated : MemoryStore
      updated = record s { users = insert u.id (record u { email = existing.email }) s.users }

      existing_at :
          (id : String) (v : User)
          → str_eq u.id id ≡ true
          → lookup id s.users ≡ some v
          → existing ≡ v
      existing_at id v q known =
          some_injective (sym at ∙ (ap (λ i. lookup i s.users) (same_text u.id id q) ∙ known))

      updated-Leads : Leads s → Leads updated
      updated-Leads leads e id h = elim (Bool-cases (str_eq u.id id)) [
        | inl q ↦
            let (v, known, same) = leads e id h in
            (
              record u { email = existing.email },
              written u.id id _ s.users q,
              ap (λ x. to_lower x.email) (existing_at id v q known) ∙ same,
            )
        | inr q ↦
            let (v, known, same) = leads e id h in (v, apart u.id id _ s.users q ∙ known, same)
      ]

      updated-Covers : Covers s → Covers updated
      updated-Covers covers id v h = elim (Bool-cases (str_eq u.id id)) [
        | inl q ↦
            let same =
              some_injective
                (sym (written u.id id (record u { email = existing.email }) s.users q) ∙ h) in
            subst (λ x. lookup (to_lower x.email) s.users_by_email ≡ some id) same
              (subst (λ i. lookup (to_lower existing.email) s.users_by_email ≡ some i)
                (same_text u.id id q) (covers u.id existing at))
        | inr q ↦ covers id v (sym (apart u.id id _ s.users q) ∙ h)
      ]

    update_user-Indexed : Indexed s → Leaves Indexed (update_user s u)
    unfolding update_user
    update_user-Indexed (leads, covers) = elim (Option-cases (lookup u.id s.users)) [
      | inl e ↦ rw (update_user, Leaves, e) tt
      | inr (x, e) ↦
          rw (update_user, Leaves, e) (updated-Leads x e leads, updated-Covers x e covers)
    ]

  -- To create a user and to update one keep the index of users right: it leads from each
  -- address, in lower case, to the user who has it, and covers every user.
  pub users-Indexed :
      (s : MemoryStore) (u : User)
      → Indexed s
      → Leaves Indexed (create_user to_lower s u) × Leaves Indexed (update_user s u)
  users-Indexed s u i = (create_user-Indexed s u i, update_user-Indexed s u i)

  -- Where the index is right, GetUserByEmail finds a user exactly if that user is stored and
  -- has the address, up to case: the index implements the plain search.
  pub get_user_by_email-HasAddress :
      (zero_user : User) (s : MemoryStore) (email : String) (u : User)
      → Indexed s
      → (get_user_by_email to_lower zero_user s email ≡ ok u) ↔ HasAddress s email u
  unfolding get_user_by_email
  get_user_by_email-HasAddress zero_user s email u (leads, covers) = (to, from)
    where
      to : get_user_by_email to_lower zero_user s email ≡ ok u → HasAddress s email u
      to h = elim (Option-cases (lookup (to_lower email) s.users_by_email)) [
        | inl e ↦
            let missing : get_user_by_email to_lower zero_user s email ≡ err not_found =
              rw (get_user_by_email, e) refl in
            let c : Result.err not_found ≡ ok u = sym missing ∙ h in ground (arith, c)
        | inr (id, e) ↦
            let (v, known, same) = leads (to_lower email) id e in
            let found : get_user_by_email to_lower zero_user s email ≡ ok v =
              rw (get_user_by_email, e, known) refl in
            let it = ok_injective (sym found ∙ h) in
            (id, known ∙ ap some it, ap (λ x. to_lower x.email) (sym it) ∙ same)
      ]

      from : HasAddress s email u → get_user_by_email to_lower zero_user s email ≡ ok u
      from (id, at, same) =
          let e = ap (λ a. lookup a s.users_by_email) (sym same) ∙ covers id u at in
          rw (get_user_by_email, e, at) refl
