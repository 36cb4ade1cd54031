-- ===== src/Tests/Identity.antt =====
-- The theorems on sessions, passwords, orgs and invitations at concrete inputs.
use viro_coolify.Base.{
  String, true, false, [], ◌∷◌, some, invalid_credentials, ok, err, ◌≡◌, refl, str_eq,
}
use viro_coolify.Base.Table.{lookup, contains, values, find}
use viro_coolify.Base.Member.{All}
use viro_coolify.Domain.Access.{
  Role, User, Organization, RefreshToken, PasswordResetToken, Invitation, InvitationStatus,
}
use viro_coolify.Store.State.{MemoryStore}
use viro_coolify.Store.Session.{calm}
use viro_coolify.Store.Tenants.{membership_key, get_membership, get_invitation_by_token}
use viro_coolify.Store.Tokens.{get_password_reset_token_by_hash}
use viro_coolify.Auth.{TokenType, Jwt, ttl, claims_of, verify}
use viro_coolify.Identity.Env.{Lib, Service, Fresh, hash_password, hash_token}
use viro_coolify.Identity.Members.Owners.{Owned}
use viro_coolify.Identity.Sessions.{refresh}
use viro_coolify.Identity.Sessions.Reuse.{IsEnded, refresh_reuse}
use viro_coolify.Identity.Password.{reset_password}
use viro_coolify.Identity.Password.Reset.{IsReset, reset_password-IsReset}
use viro_coolify.Identity.Organizations.{create_org}
use viro_coolify.Identity.Organizations.Created.{create_org-Owned}
use viro_coolify.Identity.Invitations.{accept_invitation}
use viro_coolify.Identity.Invitations.Joined.{IsAccepted}
use viro_coolify.Identity.Invitations.Accepted.{IsInvited, accept_invitation-IsAccepted}
use viro_coolify.Base.Int.{pos}
use viro_coolify.Base.Table.{insert}
use viro_coolify.Store.Session.{read, write, update, may_fail, with_tx}
use viro_coolify.Store.Users.{get_user_by_id, update_user}
use viro_coolify.Store.Tokens.{
  get_refresh_token, revoke_refresh_token_if_active, create_refresh_token,
  consume_password_reset_token, revoke_all_user_refresh_tokens,
}
use viro_coolify.Store.Tenants.{
  create_organization, add_membership, create_project, add_project_membership, update_invitation,
}
use viro_coolify.Auth.{issue_token}
use viro_coolify.Identity.Env.{bad_length, slugify, short_id, normalize_email}
use viro_coolify.Identity.Sessions.{refresh_with, rotate, issue, is_past, refresh_row}
use viro_coolify.Identity.Password.{reset_with, consume_and_set}
use viro_coolify.Identity.Organizations.{found_org}
use viro_coolify.Identity.Projects.{create_default_project, default_row}
use viro_coolify.Identity.Invitations.{grant}
use viro_coolify.Tests.Data.{empty}
use viro_coolify.Tests.Tokens.{manager, issued}

-- Sessions, passwords and invitations

abbrev named : Jwt
named = record {
  sign = λ c k. ok c.id;
  parse = λ at token k. ok (record issued { id = token });
  numeric_date = λ t. t;
}

abbrev lib : Lib
lib = record {
  to_lower = λ t. t;
  trim_space = λ t. t;
  byte_length = λ t. 12;
  before_at = λ t. t;
  is_email = λ t. true;
  dashed = λ t. t;
  trim_dashes = λ t. t;
  drop_dashes = λ t. t;
  first_six = λ t. t;
  bcrypt_hash = λ t. ok t;
  bcrypt_matches = λ h t. str_eq h t;
  sha256_hex = λ t. t;
  jwt = named;
}

abbrev svc : Service
svc = record {
  tokens = manager;
  admin_emails = [];
  refresh_ttl = 3600;
  invitation_ttl = 600;
  password_reset_ttl = 600;
}

abbrev fresh : String → Fresh
fresh jti = record {
  now = 2000;
  id = "id1";
  other_id = "id2";
  third_id = "id3";
  access_jti = "access";
  refresh_jti = jti;
  token = "plain";
}

abbrev user : User
user = record {
  id = "alice";
  email = "alice@example.org";
  name = "Alice";
  password_hash = "old";
  is_admin = false;
  created_at = 1;
}

abbrev session : RefreshToken
session = record {
  id = "jti";
  user_id = "alice";
  revoked = false;
  created_at = 1000;
  expires_at = 4600;
}

abbrev reset : PasswordResetToken
reset = record {
  id = "r1";
  user_id = "alice";
  token_hash = "link";
  expires_at = 9000;
  used_at = 0;
  created_at = 1000;
}

abbrev invited : Invitation
invited = record {
  id = "i1";
  org_id = "org";
  project_id = "p1";
  email = "alice@example.org";
  role = Role.admin;
  token = "welcome";
  status = InvitationStatus.pending;
  invited_by = "bob";
  created_at = 1000;
  expires_at = 9000;
}

abbrev platform : MemoryStore
platform = record empty {
  users = ("alice", user) ∷ [];
  refresh_tokens = ("jti", session) ∷ [];
  reset_tokens = ("r1", reset) ∷ [];
  invitations = ("i1", invited) ∷ [];
}

verified : verify named manager 2000 "jti" TokenType.refresh ≡ ok issued
unfolding verify
verified = refl

session_at : lookup "jti" platform.refresh_tokens ≡ some session
unfolding lookup
session_at = refl

refreshed :
    (refresh lib svc "jti" (fresh "next") (calm platform [])).0
    ≡ ok (record { user = user; access = "access"; refresh = "next" })
unfolding refresh refresh_with rotate issue issue_token verify claims_of ttl is_past
    get_refresh_token get_user_by_id revoke_refresh_token_if_active create_refresh_token refresh_row
    read write update may_fail lookup insert contains
refreshed = refl

refresh_reuse_example :
    let after = (refresh lib svc "jti" (fresh "next") (calm platform [])).1.store in
    let (again, w) = refresh lib svc "jti" (fresh "third") (calm after []) in
    (again ≡ err invalid_credentials) × All (IsEnded "alice") (values w.store.refresh_tokens)
refresh_reuse_example =
    refresh_reuse lib svc issued "jti" (fresh "next") (fresh "third") session (calm platform [])
      (record { user = user; access = "access"; refresh = "next" }) verified verified refl
      session_at refreshed

row_found : get_password_reset_token_by_hash platform (hash_token lib "link") ≡ ok reset
unfolding get_password_reset_token_by_hash hash_token find values
row_found = refl

row_at : lookup "r1" platform.reset_tokens ≡ some reset
unfolding lookup
row_at = refl

user_at : lookup "alice" platform.users ≡ some user
unfolding lookup
user_at = refl

reset_done : (reset_password lib "link" "new password" 2000 (calm platform [])).0 ≡ ok tt
unfolding reset_password reset_with bad_length hash_token hash_password consume_and_set
    get_password_reset_token_by_hash get_user_by_id consume_password_reset_token update_user
    revoke_all_user_refresh_tokens with_tx read write update may_fail lookup insert contains find
    values
reset_done = refl

reset_password-IsReset_example :
    (hash : String) × (hash_password lib "new password" ≡ ok hash)
    × IsReset reset user 2000 hash
        (reset_password lib "link" "new password" 2000 (calm platform [])).1.store
reset_password-IsReset_example =
    reset_password-IsReset lib "link" "new password" reset user 2000 (calm platform []) row_found
      row_at user_at refl reset_done

abbrev acme : Organization
acme = record {
  id = "id2";
  name = "Acme";
  slug = "Acme-id1";
  billing_email = "";
  spend_cap_cents = pos 0;
  created_at = 2000;
}

org_created : (create_org lib svc "alice" "Acme" (fresh "next") (calm platform [])).0 ≡ ok acme
unfolding create_org found_org slugify short_id create_organization add_membership create_project
    membership_key create_default_project default_row with_tx write may_fail contains insert
org_created = refl

create_org-Owned_example :
    Owned "id2" (create_org lib svc "alice" "Acme" (fresh "next") (calm platform [])).1.store
create_org-Owned_example =
    create_org-Owned lib svc "alice" "Acme" (fresh "next") (calm platform []) acme tt org_created

found : get_invitation_by_token platform "welcome" ≡ ok invited
unfolding get_invitation_by_token find values
found = refl

accepted :
    (accept_invitation lib "alice" "alice@example.org" "welcome" 2000 (calm platform [])).0
    ≡ ok (record invited { status = InvitationStatus.accepted })
unfolding accept_invitation grant get_invitation_by_token is_past normalize_email get_membership
    add_membership add_project_membership update_invitation membership_key with_tx read write
    may_fail lookup contains insert find values
accepted = refl

accept_invitation-IsAccepted_example :
    IsInvited invited lib "alice@example.org" 2000
    × IsAccepted invited "alice"
        (get_membership platform "org" "alice")
        (lookup (membership_key invited.project_id "alice") platform.project_members)
        (accept_invitation lib "alice" "alice@example.org" "welcome" 2000
          (calm platform [])).1.store
accept_invitation-IsAccepted_example =
    accept_invitation-IsAccepted lib "alice" "alice@example.org" "welcome" 2000 invited
      (calm platform []) (record invited { status = InvitationStatus.accepted }) found accepted
