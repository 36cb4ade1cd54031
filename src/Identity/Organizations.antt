-- ===== src/Identity/Organizations.antt =====
-- internal/identity/service.go: sign-up and organizations. The wildcard certificate that the cluster is asked for afterwards
-- and the welcome mail fail silently and leave the store as it is.
pub mod Created
use viro_coolify.Base.{
  String, Bool, true, false, not, ◌&&◌, List, Option, none, some, Error, Result, ok, err,
  is_not_found, is_conflict, invalid, missing, email_taken, str_eq, if◌then◌else◌,
}
use Prim.Native.String.{◌++◌ as join}
use viro_coolify.Base.Int.{pos}
use viro_coolify.Domain.Access.{Role, User, Organization, Membership}
use viro_coolify.Store.State.{MemoryStore}
use viro_coolify.Store.Session.{
  M, pure, throw, ◌>>=◌, ◌>>◌, look, read, write, update, on_not_found, lift, with_tx,
}
use viro_coolify.Store.Users.{get_user_by_email, create_user}
use viro_coolify.Store.Tenants.{
  create_organization, add_membership, get_organization, list_organizations_for_user, update_org,
}
use viro_coolify.Identity.Env.{
  Lib, Service, Fresh, zero_user, normalize_email, is_admin_email, hash_password, bad_length,
  slugify, short_id, personal_org_name,
}
use viro_coolify.Identity.Access.{authorize}
use viro_coolify.Identity.Projects.{create_default_project}
use viro_coolify.Identity.Sessions.{AuthResult, issue}

-- The transaction that both ways to an org share: the org, its owner and its default project.
unfoldable pub found_org : Organization → String → Fresh → M (Unit {0})
found_org org user_id f =
    write (λ s. create_organization s org)
    >> write
        (λ s. add_membership s (record { org_id = org.id; user_id = user_id; role = Role.owner }))
    >> create_default_project org.id f
    >>= λ p. pure tt

abbrev pub swapped : Result (MemoryStore × Organization) → Result (Organization × MemoryStore)
swapped (ok (s, o)) = ok (o, s)
swapped (err e) = err e

-- The clash of an address that was taken meanwhile.
abbrev pub taken : Result (Unit {0}) → M (Unit {0})
taken (ok u) = pure tt
taken (err e) = if is_conflict e then throw email_taken else throw e

-- No user with the address.
abbrev pub unknown : Result User → M (Unit {0})
unknown (ok u) = throw email_taken
unknown (err e) = if is_not_found e then pure tt else throw e

module _ (lib : Lib) (svc : Service) where
  abbrev pub org_of : String → String → Fresh → Organization
  org_of name suffix f = record {
    id = f.other_id;
    name = name;
    slug = join (slugify lib name) (join "-" (short_id lib suffix));
    billing_email = "";
    spend_cap_cents = pos 0;
    created_at = f.now;
  }

  -- `Service.Signup` once the input is checked
  unfoldable pub register : String → String → String → Fresh → M AuthResult
  register email name password f =
      look (read (λ s. get_user_by_email lib.to_lower zero_user s email)) >>= λ r.
      unknown r >> lift (hash_password lib password) >>= λ hash.
      let user : User = record {
        id = f.id;
        email = email;
        name = name;
        password_hash = hash;
        is_admin = is_admin_email lib svc email;
        created_at = f.now;
      } in
      let org = record (org_of name f.id f) { name = personal_org_name name } in
      with_tx (
        look (write (λ s. create_user lib.to_lower s user)) >>= λ c.
        taken c >> found_org org f.id f)
      >> issue lib svc user f

  -- `Service.Signup`
  unfoldable pub signup : String → String → String → Fresh → M AuthResult
  unfolding register
  signup email name password f =
      let address = normalize_email lib email in
      let trimmed = lib.trim_space name in
      if not (lib.is_email address)
      then throw invalid
      else if bad_length lib password
      then throw invalid
      else register address (if str_eq trimmed "" then lib.before_at address else trimmed) password
          f

  -- `Service.CreateOrganization`
  unfoldable pub create_org : String → String → Fresh → M Organization
  create_org user_id name f =
      let trimmed = lib.trim_space name in
      if str_eq trimmed ""
      then throw invalid
      else (let org = org_of trimmed f.id f in with_tx (found_org org user_id f) >> pure org)

  -- `UpdateOrgInput`; `none` leaves a field as it is.
  unfoldable pub with_name : Option String → Organization → Result Organization
  with_name none org = ok org
  with_name (some name) org =
      let trimmed = lib.trim_space name in
      if str_eq trimmed "" then err invalid else ok (record org { name = trimmed })

  unfoldable pub with_billing_email : Option String → Organization → Result Organization
  with_billing_email none org = ok org
  with_billing_email (some email) org =
      let address = normalize_email lib email in
      if not (str_eq address "") && not (lib.is_email address)
      then err invalid
      else ok (record org { billing_email = address })

  -- `Service.UpdateOrganization`
  unfoldable pub update_organization :
      String → String → Option String → Option String → M Organization
  unfolding with_name with_billing_email
  update_organization user_id org_id name email = authorize user_id org_id Role.admin >>= λ _.
      on_not_found missing (read (λ s. get_organization s org_id)) >>= λ org.
      lift (with_name name org) >>= λ named. lift (with_billing_email email named) >>= λ edited.
      on_not_found missing (update (λ s. swapped (update_org s edited)))

-- `Service.ListOrganizations`
unfoldable pub list_organizations : String → M (List Organization)
list_organizations user_id = read (λ s. list_organizations_for_user s user_id)
