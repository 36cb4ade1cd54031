-- ===== src/Platform/Releases/Retire.antt =====
-- What the loop of `supersede` does to the table of releases.
use mathlib.Core.Path.{subst}
use mathlib.Core.List.{Memᴰ}
use viro_coolify.Base.{
  String, true, false, List, [], ◌∷◌, some, ok, ◌≡◌, refl, sym, ap, ◌∙◌, ◌⊎◌, inl, inr, str_eq,
  if◌then◌else◌, arith, eq_iff, Bool-cases,
}
use viro_coolify.Base.Table.{lookup, insert, contains, values, lookup-insert, contains-insert}
use viro_coolify.Base.Member.{All}
use viro_coolify.Domain.Deploy.{Release, ReleaseStatus}
use viro_coolify.Store.State.{MemoryStore}
use viro_coolify.Store.Session.{Increment, calm, write}
use viro_coolify.Store.Releases.{update_release}
use viro_coolify.Platform.Releases.{is_current, supersede}

-- The writes of `supersede`, on the table.
abbrev pub retired :
    ReleaseStatus → List Release → List (String × Release) → List (String × Release)
retired status [] m = m
retired status (r ∷ rs) m =
    if is_current r
    then retired status rs (insert r.id (record r { status = status }) m)
    else retired status rs m

abbrev pub with_releases : MemoryStore → List (String × Release) → MemoryStore
with_releases s m = record s { releases = m }

abbrev pub Present : List (String × Release) → Release → Type 0
Present m r = contains r.id m ≡ true

still-Present :
    (k : String) (v : Release) (m : List (String × Release)) (rs : List Release)
    → All (Present m) rs
    → All (Present (insert k v m)) rs
still-Present k v m [] a = a
still-Present k v m (r ∷ rs) (h, a) =
    (contains-insert k r.id v m ∙ rw h (ground arith), still-Present k v m rs a)

pub supersede_lem :
    (status : ReleaseStatus) (rs : List Release) (s : MemoryStore) (is : List Increment)
    → All (Present s.releases) rs
    → supersede status rs (calm s is)
      ≡ (ok tt, calm (with_releases s (retired status rs s.releases)) is)
unfolding supersede write update_release
supersede_lem status [] s is a = refl
supersede_lem status (r ∷ rs) s is (h, a) = elim (Bool-cases (is_current r)) [
  | inl e ↦
      rw (supersede, e, h)
        (supersede_lem status rs
          (with_releases s (insert r.id (record r { status = status }) s.releases)) is
          (still-Present r.id (record r { status = status }) s.releases rs a))
  | inr e ↦ rw (supersede, e) (supersede_lem status rs s is a)
]

overwrite-contains :
    (k j : String) (v : Release) (m : List (String × Release))
    → contains k m ≡ true
    → contains j (insert k v m) ≡ contains j m
overwrite-contains k j v m h = elim (Bool-cases (str_eq k j)) [
  | inl e ↦
      contains-insert k j v m ∙ rw e (sym (subst (λ i. contains i m ≡ true) ((eq_iff k j).0 e) h))
  | inr e ↦ contains-insert k j v m ∙ rw e refl
]

pub retired-contains :
    (status : ReleaseStatus) (j : String) (rs : List Release) (m : List (String × Release))
    → All (Present m) rs
    → contains j (retired status rs m) ≡ contains j m
retired-contains status j [] m a = refl
retired-contains status j (r ∷ rs) m (h, a) = elim (Bool-cases (is_current r)) [
  | inl e ↦ rw e (
      retired-contains status j rs _ (still-Present r.id (record r { status = status }) m rs a)
      ∙ overwrite-contains r.id j (record r { status = status }) m h)
  | inr e ↦ rw e (retired-contains status j rs m a)
]

-- What a key holds is not current.
abbrev pub Past : List (String × Release) → String → Type 0
Past m k = (r : Release) → lookup k m ≡ some r → is_current r ≡ false

abbrev pub IsPastStatus : ReleaseStatus → Type 0
IsPastStatus status = (r : Release) → is_current (record r { status = status }) ≡ false

module _ (status : ReleaseStatus) (p : IsPastStatus status) where
  insert-Past :
      (r : Release) (k : String) (m : List (String × Release))
      → Past m k
      → Past (insert r.id (record r { status = status }) m) k
  insert-Past r k m h q e = elim (Bool-cases (str_eq r.id k)) [
    | inl i ↦ subst (λ q. is_current q ≡ false) (some_inj _ q (found i)) (p r)
    | inr i ↦ h q (kept i)
  ]
    where
      some_inj : (a b : Release) → some a ≡ some b → a ≡ b
      some_inj a b e = ground arith

      found : str_eq r.id k ≡ true → some (record r { status = status }) ≡ some q
      found i = sym (lookup-insert r.id k (record r { status = status }) m ∙ rw i refl) ∙ e

      kept : str_eq r.id k ≡ false → lookup k m ≡ some q
      kept i = sym (lookup-insert r.id k (record r { status = status }) m ∙ rw i refl) ∙ e

  insert_at :
      (r : Release) (k : String) (m : List (String × Release))
      → r.id ≡ k
      → Past (insert r.id (record r { status = status }) m) k
  insert_at r k m i q e = subst (λ q. is_current q ≡ false) (some_inj _ q found) (p r)
    where
      some_inj : (a b : Release) → some a ≡ some b → a ≡ b
      some_inj a b e = ground arith

      found : some (record r { status = status }) ≡ some q
      found =
          sym
            (lookup-insert r.id k (record r { status = status }) m ∙ rw ((eq_iff r.id k).1 i) refl)
          ∙ e

  retired-Past :
      (rs : List Release) (k : String) (m : List (String × Release))
      → Past m k
      → Past (retired status rs m) k
  retired-Past [] k m h = h
  retired-Past (r ∷ rs) k m h = elim (Bool-cases (is_current r)) [
    | inl e ↦ rw e (retired-Past rs k _ (insert-Past r k m h))
    | inr e ↦ rw e (retired-Past rs k m h)
  ]

  -- A release among those retired is not current afterwards.
  pub retired-Mem :
      (rs : List Release) (k : String) (m : List (String × Release)) (r : Release)
      → Memᴰ r rs
      → r.id ≡ k
      → is_current r ≡ true
      → Past (retired status rs m) k
  retired-Mem [] k m r h i c = elim h [ ]
  retired-Mem (q ∷ rs) k m r (Memᴰ.head e) i c =
      rw (subst (λ r. is_current r ≡ true) e c)
        (retired-Past rs k _ (insert_at q k m (ap (λ (r : Release). r.id) (sym e) ∙ i)))
  retired-Mem (q ∷ rs) k m r (Memᴰ.tail h) i c = elim (Bool-cases (is_current q)) [
    | inl e ↦ rw e (retired-Mem rs k _ r h i c)
    | inr e ↦ rw e (retired-Mem rs k m r h i c)
  ]

  -- A key keeps its release, or what it holds is not current.
  pub retired-or-kept :
      (rs : List Release) (k : String) (m : List (String × Release))
      → (lookup k (retired status rs m) ≡ lookup k m) ⊎ Past (retired status rs m) k
  retired-or-kept [] k m = inl refl
  retired-or-kept (r ∷ rs) k m = elim (Bool-cases (is_current r)) [
    | inr e ↦ rw e (retired-or-kept rs k m)
    | inl e ↦ elim (Bool-cases (str_eq r.id k)) [
      | inl i ↦ rw e (inr (retired-Past rs k _ (insert_at r k m ((eq_iff r.id k).0 i))))
      | inr i ↦ elim (retired-or-kept rs k (insert r.id (record r { status = status }) m)) [
        | inl q ↦ rw e (inl (q ∙ lookup-insert r.id k _ m ∙ rw i refl))
        | inr q ↦ rw e (inr q)
      ]
    ]
  ]

-- A table that keeps each release under its id.
abbrev pub Keyed : List (String × Release) → Type 0
Keyed [] = Unit {0}
Keyed ((k, r) ∷ m) = (r.id ≡ k) × Keyed m

pub Keyed-at :
    (k : String) (r : Release) (m : List (String × Release))
    → Keyed m
    → lookup k m ≡ some r
    → r.id ≡ k
unfolding lookup
Keyed-at k r [] h e = ground arith
Keyed-at k r ((j, q) ∷ m) (i, h) e = elim (Bool-cases (str_eq j k)) [
  | inl b ↦ ground (arith, e, b, i, eq_iff j k)
  | inr b ↦ Keyed-at k r m h (ground (arith, e, b))
]

Present-cons :
    (k : String) (q : Release) (m : List (String × Release)) (rs : List Release)
    → All (Present m) rs
    → All (Present ((k, q) ∷ m)) rs
unfolding contains
Present-cons k q m [] a = a
Present-cons k q m (r ∷ rs) (h, a) = (ground (arith, h), Present-cons k q m rs a)

pub Keyed-Present : (m : List (String × Release)) → Keyed m → All (Present m) (values m)
unfolding values contains
Keyed-Present [] h = h
Keyed-Present ((k, r) ∷ m) (i, h) =
    (ground (arith, i, eq_iff k r.id), Present-cons k r m (values m) (Keyed-Present m h))
