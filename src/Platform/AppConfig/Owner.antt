-- ===== src/Platform/AppConfig/Owner.antt =====
-- internal/platform/appconfig.go: who owns a host.
use viro_coolify.Base.{
  String, Bool, true, false, ◌&&◌, Option, none, some, Error, Result, ok, err, not_found, missing,
  ◌≡◌, refl, sym, ◌∙◌, ap, ◌⊎◌, inl, inr, str_eq, eq_iff, eq_refl, arith, or_error,
}
use viro_coolify.Base.Table.{values, find, lookup}
use viro_coolify.Base.Member.{All_at, find-some, find-none, lookup-Mem}
use viro_coolify.Domain.Scalar.{Time}
use viro_coolify.Domain.Deploy.{Domain}
use viro_coolify.Store.State.{MemoryStore}
use viro_coolify.Store.AppConfig.{get_domain}
use viro_coolify.Store.Audit.{is_verified, get_verified_domain_by_host}
use viro_coolify.Store.Session.{World}
use viro_coolify.Store.Session.Reads.{
  Reads, pure-Reads, throw-Reads, >>=-Reads, read-Reads, on_not_found-Reads, if-Reads,
}
use viro_coolify.Store.Session.Outcomes.{ok_injective}
use viro_coolify.Store.Session.Holds.{
  or_fail-Reads, lift-Reads, if-Holds, look-read-Reads, Holds, >>=-Holds, write-Holds,
}
use viro_coolify.Platform.AppConfig.Rows.{
  Row, clean, Free, Owned, update-Owned, create-Owned, delete-Owned,
}
use viro_coolify.Platform.AppConfig.{
  Lib, owned_app, owned_domain, validate_custom_domain, add_domain, challenge_met, may_own,
  not_taken, failed_row, verified_row, verify_domain_row, delete_domain_row,
}

err_injective : {A : Type 0} {x y : Error} → ◌≡◌ {A = Result A} (err x) (err y) → x ≡ y
err_injective {A} {x} q = ap (λ r. elim r [ ok _ ↦ x | err e ↦ e ]) q

module _ (lib : Lib) where
  module _ (s : MemoryStore) (owned : Owned lib s) where
    owned_app-Reads : (org_id app_id : String) → Reads s (owned_app org_id app_id) (λ _. Unit {0})
    unfolding owned_app
    owned_app-Reads org_id app_id =
        >>=-Reads s (λ _. Unit {0}) (λ _. Unit {0}) _ _
          (on_not_found-Reads s (λ _. Unit {0}) missing _
            (read-Reads s (λ _. Unit {0}) _ (λ a q. tt)))
          (λ a _.
            if-Reads s (λ _. Unit {0}) _ _ _ (λ _. pure-Reads s (λ _. Unit {0}) a tt)
              (λ _. throw-Reads s (λ _. Unit {0}) missing))

    get_domain-Row : (id : String) (d : Domain) → get_domain s id ≡ ok d → Row s d
    unfolding get_domain
    get_domain-Row id d h = found (lookup id s.domains) refl h
      where
        found :
            (o : Option Domain) → lookup id s.domains ≡ o → or_error not_found o ≡ ok d → Row s d
        found none e q = ground (arith, q)
        found (some x) e q = lookup-Mem id d s.domains (e ∙ ap some (ok_injective q))

    owned_domain-Reads :
        (org_id app_id id : String) → Reads s (owned_domain org_id app_id id) (Row s)
    unfolding owned_domain
    owned_domain-Reads org_id app_id id =
        >>=-Reads s (Row s) (Row s) _ _
          (or_fail-Reads s (Row s) missing _ (read-Reads s (Row s) _ (get_domain-Row id)))
          (λ d r.
            if-Reads s (Row s) _ _ _ (λ _. throw-Reads s (Row s) missing)
              (λ _. pure-Reads s (Row s) d r))

    module _ (d : Domain) (row : Row s d) where
      abbrev takes : Domain → Bool
      takes b = is_verified b && str_eq (lib.fold b.domain) (lib.fold (clean lib d.domain))

      taken :
          (b : Domain)
          → is_verified b ≡ true
          → lib.fold b.domain ≡ lib.fold d.domain
          → takes b ≡ true
      taken b v e = rw (v, owned.1 d row, e) (eq_refl (lib.fold d.domain))

      nobody-Free : find takes (values s.domains) ≡ none → Free lib s d
      nobody-Free h b q v e =
          let no = All_at (λ b. takes b ≡ false) _ (find-none takes _ h) q in
          let yes = taken b v e in ground (arith, no, yes)

      itself-Free :
          (o : Domain)
          → find takes (values s.domains) ≡ some o
          → str_eq o.id d.id ≡ true
          → Free lib s d
      itself-Free o h i b q v e =
          let (m, t) = find-some takes _ o h in
          let vo : is_verified o ≡ true = ground (arith, t) in
          let eo : str_eq (lib.fold o.domain) (lib.fold (clean lib d.domain)) ≡ true =
            ground (arith, t) in
          let fo : lib.fold o.domain ≡ lib.fold (clean lib d.domain) =
            ground (arith, eo, eq_iff (lib.fold o.domain) (lib.fold (clean lib d.domain))) in
          owned.0 b o q m v vo (e ∙ sym (fo ∙ ap lib.fold (owned.1 d row)))
          ∙ ground (arith, i, eq_iff o.id d.id)

      owner_of : Option Domain → Result Domain
      owner_of o = or_error not_found o

      may_own-Reads :
          (o : Option Domain) (r : Result Domain)
          → find takes (values s.domains) ≡ o
          → (r ≡ owner_of o) ⊎ (r ≡ err Error.transient)
          → Reads s (may_own d r) (λ _. Free lib s d)
      unfolding may_own owner_of
      may_own-Reads none (ok x) e (inl q) = ground (arith, q)
      may_own-Reads none (err x) e q =
          if-Reads s (λ _. Free lib s d) _ _ _
            (λ _. pure-Reads s (λ _. Free lib s d) tt (nobody-Free e))
            (λ _. throw-Reads s (λ _. Free lib s d) x)
      may_own-Reads (some o) (ok x) e (inl q) =
          if-Reads s (λ _. Free lib s d) _ _ _
            (λ i.
              pure-Reads s (λ _. Free lib s d) tt
                (itself-Free x (e ∙ ap some (sym (ok_injective q))) i))
            (λ _. throw-Reads s (λ _. Free lib s d) Error.domain_taken)
      may_own-Reads (some o) (err x) e (inl q) = ground (arith, q)
      may_own-Reads o (ok x) e (inr q) = ground (arith, q)
      may_own-Reads (some o) (err x) e (inr q) =
          rw (err_injective q) (throw-Reads s (λ _. Free lib s d) Error.transient)

      not_taken-Reads : Reads s (not_taken lib d) (λ _. Free lib s d)
      unfolding not_taken get_verified_domain_by_host owner_of
      not_taken-Reads =
          >>=-Reads s _ (λ _. Free lib s d) _ _
            (look-read-Reads s (λ t. get_verified_domain_by_host lib.fold (clean lib) t d.domain))
            (λ r. may_own-Reads (find takes (values s.domains)) r refl)

    validate-clean :
        ((h : String) → lib.is_fqdn h ≡ true → clean lib h ≡ h)
        → (base fqdn host : String) → validate_custom_domain lib base fqdn ≡ ok host
        → clean lib host ≡ host
    unfolding validate_custom_domain
    validate-clean cleaned base fqdn host h = cleaned host (ground (arith, h))

    add-Holds :
        ((h : String) → lib.is_fqdn h ≡ true → clean lib h ≡ h)
        → (base org_id app_id fqdn id : String) (token : Result String) (now : Time)
        → Holds s (Owned lib) owned (add_domain lib base org_id app_id fqdn id token now)
    unfolding add_domain is_verified
    add-Holds cleaned base org_id app_id fqdn id token now =
        >>=-Holds s (Owned lib) owned (λ _. Unit {0}) _ _ (owned_app-Reads org_id app_id)
          (λ a _.
            >>=-Holds s (Owned lib) owned (λ host. clean lib host ≡ host) _ _
              (lift-Reads s (λ host. clean lib host ≡ host) _ (validate-clean cleaned base fqdn))
              (λ host c.
                >>=-Holds s (Owned lib) owned (λ _. Unit {0}) _ _
                  (lift-Reads s (λ _. Unit {0}) token (λ _ _. tt))
                  (λ t _.
                    write-Holds s (Owned lib) owned _ _
                      (create-Owned lib s owned _ c (λ v. ground (arith, v))))))

    verify-Holds :
        (org_id app_id id : String) (now : Time)
        → Holds s (Owned lib) owned (verify_domain_row lib org_id app_id id now)
    unfolding verify_domain_row is_verified
    verify-Holds org_id app_id id now =
        >>=-Holds s (Owned lib) owned (λ _. Unit {0}) _ _ (owned_app-Reads org_id app_id)
          (λ a _.
            >>=-Holds s (Owned lib) owned (Row s) _ _ (owned_domain-Reads org_id app_id id)
              (λ d row.
                if-Holds s (Owned lib) owned (challenge_met lib d) _ _
                  (>>=-Holds s (Owned lib) owned (λ _. Free lib s d) _ _ (not_taken-Reads d row)
                    (λ _ free.
                      write-Holds s (Owned lib) owned _ _ (
                        update-Owned lib s owned (verified_row d now) (owned.1 d row) (λ _. free))))
                  (write-Holds s (Owned lib) owned _ _ (
                    update-Owned lib s owned (failed_row d) (owned.1 d row)
                      (λ v. ground (arith, v))))))

    delete-Holds :
        (org_id app_id id : String) → Holds s (Owned lib) owned (delete_domain_row org_id app_id id)
    unfolding delete_domain_row
    delete-Holds org_id app_id id =
        >>=-Holds s (Owned lib) owned (λ _. Unit {0}) _ _ (owned_app-Reads org_id app_id)
          (λ a _.
            >>=-Holds s (Owned lib) owned (Row s) _ _ (owned_domain-Reads org_id app_id id)
              (λ d _. write-Holds s (Owned lib) owned _ _ (delete-Owned lib s owned id)))

  -- Where a text that passes for a hostname has no blanks around it and no capitals, and no host has
  -- two verified rows: adding a domain, verifying one (up to the write of its row) and deleting one
  -- keep it so, for every tenant, whatever the DNS says and whichever calls of the store fail.
  pub domains-Owned :
      (s : MemoryStore) (w : World)
      → ((h : String) → lib.is_fqdn h ≡ true → clean lib h ≡ h)
      → Owned lib s
      → w.store ≡ s
      → (base org_id app_id fqdn id : String) (token : Result String) (now : Time)
      → Owned lib (add_domain lib base org_id app_id fqdn id token now w).1.store
        × (Owned lib (verify_domain_row lib org_id app_id id now w).1.store
            × Owned lib (delete_domain_row org_id app_id id w).1.store)
  domains-Owned s w cleaned o e base org_id app_id fqdn id token now = (
    (add-Holds s o cleaned base org_id app_id fqdn id token now).after w e,
    (
      (verify-Holds s o org_id app_id id now).after w e,
      (delete-Holds s o org_id app_id id).after w e,
    ),
  )
