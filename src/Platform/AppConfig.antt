-- ===== src/Platform/AppConfig.antt =====
-- internal/platform/appconfig.go: the environment of an app, and the rows of its custom domains. What
-- VerifyDomain and DeleteDomain do in the cluster after the row is written is not modelled, nor are
-- the instructions for DNS that the results carry.
pub mod Rows
pub mod Owner
use viro_coolify.Base.{
  ℕ, String, Bool, true, false, not, ◌&&◌, ◌||◌, List, [], ◌∷◌, Result, ok, err, is_not_found,
  missing, invalid_domain, domain_taken, str_eq, ltb, if◌then◌else◌,
}
use Prim.Native.String.{◌++◌ as join}
use viro_coolify.Base.Sort.{sort_by}
use viro_coolify.Domain.Scalar.{Time}
use viro_coolify.Domain.Deploy.{App, AppEnvEntry, Domain, DomainStatus}
use viro_coolify.Store.Billing.{text_lt}
use viro_coolify.Store.Workloads.{get_app}
use viro_coolify.Store.AppConfig.{
  list_app_env, set_app_env, delete_app_env, create_domain, get_domain, list_domains_by_app,
  update_domain, delete_domain,
}
use viro_coolify.Store.Audit.{get_verified_domain_by_host}
use viro_coolify.Store.Session.{
  M, pure, throw, lift, ◌>>=◌, ◌>>◌, look, read, write, on_not_found, or_fail,
}

-- What the service takes from the standard library, from the cipher of secrets and from DNS.
pub record Lib : Type 0 where
  -- strings.TrimSpace, strings.ToLower, strings.TrimSuffix(s, "."), strings.HasSuffix, len
  pub trim_space : String → String
  pub to_lower : String → String
  pub drop_dot : String → String
  pub has_suffix : String → String → Bool
  pub byte_length : String → ℕ
  -- fqdnRe.MatchString, and the text that stands for all that strings.EqualFold identifies with one
  pub is_fqdn : String → Bool
  pub fold : String → String
  pub encrypt : String → Result String
  pub lookup_txt : String → Result (List String)

pub record EnvVar : Type 0 where
  pub key : String
  pub value : String
  pub secret : Bool

unfoldable pub owned_app : String → String → M App
owned_app org_id app_id = on_not_found missing (read (λ s. get_app s app_id)) >>= λ a.
    if str_eq a.org_id org_id then pure a else throw missing

unfoldable pub masked : AppEnvEntry → EnvVar
masked e = record { key = e.key; value = if e.secret then "***" else e.value; secret = e.secret }

unfoldable pub all_masked : List AppEnvEntry → List EnvVar
unfolding masked
all_masked [] = []
all_masked (e ∷ es) = masked e ∷ all_masked es

unfoldable pub list_env : String → String → M (List EnvVar)
unfolding owned_app all_masked
list_env org_id app_id = owned_app org_id app_id >>= λ a. read (λ s. list_app_env s a.id) >>= λ es.
    pure (sort_by (λ x y. text_lt x.key y.key) (all_masked es))

unfoldable pub delete_env : String → String → String → M (Unit {0})
unfolding owned_app
delete_env org_id app_id key =
    owned_app org_id app_id >>= λ a. write (λ s. delete_app_env s a.id key)

unfoldable pub list_domains : String → String → M (List Domain)
unfolding owned_app
list_domains org_id app_id = owned_app org_id app_id >>= λ a. read (λ s. list_domains_by_app s a.id)

unfoldable pub owned_domain : String → String → String → M Domain
owned_domain org_id app_id domain_id = or_fail missing (read (λ s. get_domain s domain_id)) >>= λ d.
    if not (str_eq d.app_id app_id) || not (str_eq d.org_id org_id) then throw missing else pure d

-- `store.GetVerifiedDomainByHost`, whose error ErrNotFound leaves no owner.
unfoldable pub may_own : Domain → Result Domain → M (Unit {0})
may_own d (ok owner) = if str_eq owner.id d.id then pure tt else throw domain_taken
may_own d (err e) = if is_not_found e then pure tt else throw e

abbrev pub failed_row : Domain → Domain
failed_row d = record d { status = DomainStatus.failed; verified = false }

abbrev pub verified_row : Domain → Time → Domain
verified_row d now = record d { status = DomainStatus.verified; verified = true; verified_at = now }

-- `Service.DeleteDomain` up to the deletion of the row.
unfoldable pub delete_domain_row : String → String → String → M Domain
unfolding owned_app owned_domain
delete_domain_row org_id app_id domain_id = owned_app org_id app_id >>= λ _.
    owned_domain org_id app_id domain_id >>= λ d. write (λ s. delete_domain s domain_id) >> pure d

module _ (lib : Lib) where
  unfoldable pub set_env : String → String → String → String → Bool → M EnvVar
  unfolding owned_app
  set_env org_id app_id key value secret = owned_app org_id app_id >>= λ a.
      let name = lib.trim_space key in
      lift (if secret then lib.encrypt value else ok value) >>= λ stored.
      write (λ s. set_app_env s a.id name stored secret)
      >> pure (record { key = name; value = if secret then "***" else value; secret = secret })

  -- `s.baseDomain`, which is empty where none is set, is the first argument.
  unfoldable pub validate_custom_domain : String → String → Result String
  validate_custom_domain base fqdn =
      let host = lib.drop_dot (lib.to_lower (lib.trim_space fqdn)) in
      if str_eq host "" || ltb 253 (lib.byte_length host) || not (lib.is_fqdn host)
      then err invalid_domain
      else if not (str_eq base "") && (str_eq host base || lib.has_suffix host (join "." base))
      then err invalid_domain
      else ok host

  -- The id, the token and the time of the new row come last; no token stands for a generator that
  -- fails.
  unfoldable pub add_domain :
      String → String → String → String → String → Result String → Time → M Domain
  unfolding owned_app validate_custom_domain
  add_domain base org_id app_id fqdn id token now = owned_app org_id app_id >>= λ a.
      lift (validate_custom_domain base fqdn) >>= λ host. lift token >>= λ t.
      let d : Domain = record {
        id = id;
        org_id = org_id;
        app_id = a.id;
        domain = host;
        verified = false;
        status = DomainStatus.pending;
        verification_token = t;
        verified_at = 0;
        created_at = now;
      } in
      write (λ s. create_domain s d) >> pure d

  unfoldable pub has_token : String → List String → Bool
  has_token token [] = false
  has_token token (txt ∷ txts) = str_eq (lib.trim_space txt) token || has_token token txts

  unfoldable pub challenge_met : Domain → Bool
  unfolding has_token
  challenge_met d = elim (lib.lookup_txt (join "_vortex-challenge." d.domain)) [
    | ok txts ↦ has_token d.verification_token txts
    | err e ↦ false
  ]

  unfoldable pub not_taken : Domain → M (Unit {0})
  unfolding may_own
  not_taken d =
      look (
        read (λ s.
          get_verified_domain_by_host lib.fold (λ h. lib.to_lower (lib.trim_space h)) s d.domain))
      >>= λ r. may_own d r

  -- `Service.VerifyDomain` up to the write of the row.
  unfoldable pub verify_domain_row : String → String → String → Time → M Domain
  unfolding owned_app owned_domain challenge_met not_taken
  verify_domain_row org_id app_id domain_id now = owned_app org_id app_id >>= λ _.
      owned_domain org_id app_id domain_id >>= λ d.
      if challenge_met d
      then (not_taken d
          >> (write (λ s. update_domain s (verified_row d now)) >> pure (verified_row d now)))
      else (write (λ s. update_domain s (failed_row d)) >> pure (failed_row d))
