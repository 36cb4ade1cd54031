-- ===== src/Platform/AppConfig/Rows.antt =====
-- internal/platform/appconfig.go: the rows of hosts, each with one owner.
use mathlib.Core.Path.{subst}
use mathlib.Core.List.{Memᴰ}
use viro_coolify.Base.{String, true, ◌≡◌, sym, ◌∙◌, ap, ◌⊎◌, inl, inr, Bool-cases}
use viro_coolify.Base.Table.{insert, values, contains}
use viro_coolify.Base.Member.{values-insert, values-erase}
use viro_coolify.Domain.Deploy.{Domain}
use viro_coolify.Store.State.{MemoryStore}
use viro_coolify.Store.AppConfig.{create_domain, update_domain, delete_domain}
use viro_coolify.Store.Audit.{is_verified}
use viro_coolify.Store.Session.Reads.{Leaves}
use viro_coolify.Platform.AppConfig.{Lib}

-- The domains of a store.
abbrev pub Row : MemoryStore → Domain → Type 0
Row s d = Memᴰ d (values s.domains)

module _ (lib : Lib) where
  abbrev pub clean : String → String
  clean h = lib.to_lower (lib.trim_space h)

  -- Two verified rows of one host, whatever its case, are one row; and hosts are stored clean.
  abbrev pub OneOwner : MemoryStore → Type 0
  OneOwner s =
      (a b : Domain)
      → Row s a
      → Row s b
      → is_verified a ≡ true
      → is_verified b ≡ true
      → lib.fold a.domain ≡ lib.fold b.domain
      → a.id ≡ b.id

  abbrev pub Cleaned : MemoryStore → Type 0
  Cleaned s = (a : Domain) → Row s a → clean a.domain ≡ a.domain

  abbrev pub Owned : MemoryStore → Type 0
  Owned s = OneOwner s × Cleaned s

  -- Nobody else has the host of a row verified.
  abbrev pub Free : MemoryStore → Domain → Type 0
  Free s d =
      (b : Domain)
      → Row s b
      → is_verified b ≡ true
      → lib.fold b.domain ≡ lib.fold d.domain
      → b.id ≡ d.id

  module _ (s : MemoryStore) (owned : Owned s) where
    put-Owned :
        (d : Domain)
        → clean d.domain ≡ d.domain
        → (is_verified d ≡ true → Free s d)
        → Owned (record s { domains = insert d.id d s.domains })
    put-Owned d c free = (one, tidy)
      where
        one_case :
            (a b : Domain)
            → (a ≡ d) ⊎ Row s a
            → (b ≡ d) ⊎ Row s b
            → is_verified a ≡ true
            → is_verified b ≡ true
            → lib.fold a.domain ≡ lib.fold b.domain
            → a.id ≡ b.id
        one_case a b (inl p) (inl q) va vb e = ap (λ x. x.id) (p ∙ sym q)
        one_case a b (inl p) (inr q) va vb e =
            ap (λ x. x.id) p
            ∙ sym (
                free (subst (λ x. is_verified x ≡ true) p va) b q vb
                  (sym e ∙ ap (λ x. lib.fold x.domain) p))
        one_case a b (inr p) (inl q) va vb e =
            free (subst (λ x. is_verified x ≡ true) q vb) a p va (e ∙ ap (λ x. lib.fold x.domain) q)
            ∙ sym (ap (λ x. x.id) q)
        one_case a b (inr p) (inr q) va vb e = owned.0 a b p q va vb e

        one : OneOwner (record s { domains = insert d.id d s.domains })
        one a b p q =
            one_case a b (values-insert d.id d s.domains p) (values-insert d.id d s.domains q)

        tidy_case : (a : Domain) → (a ≡ d) ⊎ Row s a → clean a.domain ≡ a.domain
        tidy_case a (inl p) = subst (λ x. clean x.domain ≡ x.domain) (sym p) c
        tidy_case a (inr p) = owned.1 a p

        tidy : Cleaned (record s { domains = insert d.id d s.domains })
        tidy a p = tidy_case a (values-insert d.id d s.domains p)

    pub update-Owned :
        (d : Domain)
        → clean d.domain ≡ d.domain
        → (is_verified d ≡ true → Free s d)
        → Leaves Owned (update_domain s d)
    unfolding update_domain
    update-Owned d c free = elim (Bool-cases (contains d.id s.domains)) [
      | inl e ↦ rw (update_domain, Leaves, e) (put-Owned d c free)
      | inr e ↦ rw (update_domain, Leaves, e) tt
    ]

    pub create-Owned :
        (d : Domain)
        → clean d.domain ≡ d.domain
        → (is_verified d ≡ true → Free s d)
        → Leaves Owned (create_domain s d)
    unfolding create_domain
    create-Owned d c free = elim (Bool-cases (contains d.id s.domains)) [
      | inl e ↦ rw (create_domain, Leaves, e) tt
      | inr e ↦ rw (create_domain, Leaves, e) (put-Owned d c free)
    ]

    pub delete-Owned : (id : String) → Leaves Owned (delete_domain s id)
    unfolding delete_domain
    delete-Owned id = elim (Bool-cases (contains id s.domains)) [
      | inl e ↦
          rw (delete_domain, Leaves, e)
            (
              λ a b p q. owned.0 a b (values-erase id s.domains p) (values-erase id s.domains q),
              λ a p. owned.1 a (values-erase id s.domains p),
            )
      | inr e ↦ rw (delete_domain, Leaves, e) tt
    ]
