-- ===== src/Tests/Domains.antt =====
-- A host that one tenant has verified, and that another one tries to verify.
use mathlib.Core.List.{Memᴰ}
use viro_coolify.Base.{
  String, true, false, List, [], ◌∷◌, ok, ◌≡◌, refl, sym, ap, ◌∙◌, str_eq, eq_iff, domain_taken,
  err, arith, if◌then◌else◌,
}
use viro_coolify.Base.Table.{lookup, find, values}
use mathlib.Core.Path.{subst}
use viro_coolify.Domain.Deploy.{Domain, DomainStatus}
use viro_coolify.Store.State.{MemoryStore}
use viro_coolify.Store.Audit.{is_verified, get_verified_domain_by_host}
use viro_coolify.Store.Session.{calm, read}
use viro_coolify.Store.Workloads.{get_app}
use viro_coolify.Store.AppConfig.{get_domain}
use viro_coolify.Platform.AppConfig.{Lib, add_domain, verify_domain_row, delete_domain_row}
use viro_coolify.Platform.AppConfig.Rows.{Owned}
use viro_coolify.Platform.AppConfig.Owner.{domains-Owned}
use viro_coolify.Tests.Data.{empty, app}

abbrev lib : Lib
lib = record {
  trim_space = λ s. s;
  to_lower = λ s. if str_eq s "SHOP.example" then "shop.example" else s;
  drop_dot = λ s. s;
  has_suffix = λ s t. false;
  byte_length = λ s. 12;
  is_fqdn = λ s. str_eq s "shop.example";
  fold = λ s. s;
  encrypt = λ s. ok s;
  lookup_txt = λ name. ok ("proof-1" ∷ "proof-2" ∷ []);
}

abbrev first_domain : Domain
first_domain = record {
  id = "d1";
  org_id = "another_org";
  app_id = "another_app";
  domain = "shop.example";
  verified = true;
  status = DomainStatus.verified;
  verification_token = "proof-1";
  verified_at = 5;
  created_at = 4;
}

abbrev second_domain : Domain
second_domain = record {
  id = "d2";
  org_id = app.org_id;
  app_id = app.id;
  domain = "shop.example";
  verified = false;
  status = DomainStatus.pending;
  verification_token = "proof-2";
  verified_at = 0;
  created_at = 6;
}

abbrev with_domains : MemoryStore
with_domains = record empty {
  apps = (app.id, app) ∷ [];
  domains = ("d1", first_domain) ∷ ("d2", second_domain) ∷ [];
}

abbrev rows : List Domain
rows = first_domain ∷ second_domain ∷ []

-- The second tenant publishes the challenge, and is refused.
verify_refused :
    (verify_domain_row lib app.org_id app.id "d2" 7 (calm with_domains [])).0 ≡ err domain_taken
unfolding verify_domain_row read get_app lookup get_domain get_verified_domain_by_host find values
verify_refused = refl

only_first : (a : Domain) → Memᴰ a rows → is_verified a ≡ true → a ≡ first_domain
unfolding is_verified
only_first a (Memᴰ.head e) v = e
only_first a (Memᴰ.tail (Memᴰ.head e)) v =
    let c : is_verified second_domain ≡ true = subst (λ x. is_verified x ≡ true) e v in
    ground (arith, c)
only_first a (Memᴰ.tail (Memᴰ.tail m)) v = elim m [ ]

rows-Cleaned : (a : Domain) → Memᴰ a rows → a.domain ≡ "shop.example"
rows-Cleaned a (Memᴰ.head e) = ap (λ x. x.domain) e
rows-Cleaned a (Memᴰ.tail (Memᴰ.head e)) = ap (λ x. x.domain) e
rows-Cleaned a (Memᴰ.tail (Memᴰ.tail m)) = elim m [ ]

with_domains-Owned : Owned lib with_domains
unfolding values
with_domains-Owned = (
  λ a b p q v w e. ap (λ x. x.id) (only_first a p v ∙ sym (only_first b q w)),
  λ a p. rw (rows-Cleaned a p) refl,
)

fqdn-clean : (h : String) → lib.is_fqdn h ≡ true → lib.to_lower (lib.trim_space h) ≡ h
fqdn-clean h e =
    let q : h ≡ "shop.example" = ground (arith, e, eq_iff h "shop.example") in
    subst (λ x. lib.to_lower (lib.trim_space x) ≡ x) (sym q) refl

domains-Owned_example :
    Owned lib
      (add_domain lib "" app.org_id app.id "shop.example" "d2"
        (ok "proof-3")
        8
        (calm with_domains [])).1.store
    × (Owned lib (verify_domain_row lib app.org_id app.id "d2" 8 (calm with_domains [])).1.store
        × Owned lib (delete_domain_row app.org_id app.id "d2" (calm with_domains [])).1.store)
domains-Owned_example =
    domains-Owned lib with_domains (calm with_domains []) fqdn-clean with_domains-Owned refl ""
      app.org_id app.id "shop.example" "d2" (ok "proof-3") 8
