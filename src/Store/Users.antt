-- ===== src/Store/Users.antt =====
-- internal/store/memory.go: users, with the index by email.
pub mod Index
use viro_coolify.Base.{
  String, Result, ok, err, not_found, conflict, or_error, if◌then◌else◌, none, some, ℕ, length,
}
use viro_coolify.Base.Table.{lookup, insert, contains}
use viro_coolify.Domain.Access.{User}
use viro_coolify.Store.State.{MemoryStore}

unfoldable pub get_user_by_id : MemoryStore → String → Result User
get_user_by_id s id = or_error not_found (lookup id s.users)

-- The email stays what it was: it is the key of the index.
unfoldable pub update_user : MemoryStore → User → Result MemoryStore
update_user s u = elim (lookup u.id s.users) [
  | none ↦ err not_found
  | some existing ↦
      ok (record s { users = insert u.id (record u { email = existing.email }) s.users })
]

unfoldable pub count_users : MemoryStore → Result ℕ
count_users s = ok (length s.users)

-- `to_lower` stands for Go's strings.ToLower.
module _ (to_lower : String → String) where
  unfoldable pub create_user : MemoryStore → User → Result MemoryStore
  create_user s u =
      let email = to_lower u.email in
      if contains email s.users_by_email
      then err conflict
      else if contains u.id s.users
      then err conflict
      else ok (record s {
        users = insert u.id u s.users;
        users_by_email = insert email u.id s.users_by_email;
      })

  -- Go reads a missing key of `users` as the zero user; `zero_user` is that value.
  unfoldable pub get_user_by_email : User → MemoryStore → String → Result User
  get_user_by_email zero_user s email = elim (lookup (to_lower email) s.users_by_email) [
    | none ↦ err not_found
    | some id ↦ ok (elim (lookup id s.users) [ none ↦ zero_user | some u ↦ u ])
  ]
