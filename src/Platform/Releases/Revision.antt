-- ===== src/Platform/Releases/Revision.antt =====
-- The revision that a new release gets.
use mathlib.Core.List.{Memᴰ}
use viro_coolify.Base.{
  ℕ, suc, ◌≤◌, ◌<◌, leb, String, true, false, ◌&&◌, List, [], ◌∷◌, some, ok, ◌≡◌, refl, inl, inr,
  str_eq, if◌then◌else◌, arith, Bool-cases,
}
use viro_coolify.Base.Int.{ℤ, pos, negsuc, ltb_ℤ, leb_ℤ, eqb_ℤ, ◌+64◌, +64_pos, int64_half}
use viro_coolify.Base.Table.{lookup, insert, values, select, any}
use viro_coolify.Base.Sort.{sort_by}
use viro_coolify.Base.Member.{
  All, All_at, All-select, All-sort_by, sort_by-keeps, select-keeps, lookup-Mem,
}
use viro_coolify.Domain.Deploy.{Release, ReleaseStatus}
use viro_coolify.Store.State.{MemoryStore}
use viro_coolify.Store.Page.{all_rows, page_of}
use viro_coolify.Store.Releases.{list_releases_by_app}
use viro_coolify.Platform.Releases.{is_current, next_revision}
use viro_coolify.Platform.Releases.Retire.{retired}

-- A revision that has a next one in an int.
abbrev pub HasNext : Release → Type 0
HasNext r = ltb_ℤ r.revision (pos 9223372036854775807) ≡ true

abbrev pub IsBelow : ℤ → Release → Type 0
IsBelow n r = ltb_ℤ r.revision n ≡ true

step :
    (n : ℕ) (v : ℤ)
    → n < int64_half
    → ltb_ℤ v (pos 9223372036854775807) ≡ true
    → (n1 : ℕ) × ((if leb_ℤ (pos n) v then v +64 pos 1 else pos n) ≡ pos n1)
      × (n ≤ n1)
      × (n1 < int64_half)
      × (ltb_ℤ v (pos n1) ≡ true)
step n (negsuc m) b h = (n, ground arith, omega arith, b, ground arith)
step n (pos m) b h = elim (Bool-cases (leb n m)) [
  | inl e ↦
      (suc m, ground (arith, e, h, +64_pos m 1), ground (arith, e), ground (arith, h), ground arith)
  | inr e ↦ (n, ground (arith, e), omega arith, b, ground (arith, e))
]

ltb_trans : (v : ℤ) (n m : ℕ) → ltb_ℤ v (pos n) ≡ true → n ≤ m → ltb_ℤ v (pos m) ≡ true
ltb_trans v n m h l = ground arith

-- The next revision is above every revision there is.
pub next_revision_above :
    (n : ℕ) (rs : List Release)
    → n < int64_half
    → All HasNext rs
    → (n' : ℕ) × (next_revision (pos n) rs ≡ pos n') × (n ≤ n') × All (IsBelow (pos n')) rs
unfolding next_revision
next_revision_above n [] b h = (n, refl, omega arith, tt)
next_revision_above n (r ∷ rs) b (l, h) =
    let (n1, e, a, c, d) = step n r.revision b l in
    let (n2, f, g, k) = next_revision_above n1 rs c h in
    (n2, rw e f, omega arith, (ltb_trans r.revision n1 n2 d g, k))

-- The releases of an app, as the store lists them.
abbrev pub history : String → List (String × Release) → List Release
history app_id m =
    sort_by (λ a b. ltb_ℤ b.revision a.revision) (select (λ r. str_eq r.app_id app_id) (values m))

pub list_releases_all :
    (s : MemoryStore) (app_id : String)
    → list_releases_by_app s app_id all_rows ≡ ok (history app_id s.releases)
unfolding list_releases_by_app page_of
list_releases_all s app_id = refl

pub history-Mem :
    (app_id k : String) (r : Release) (m : List (String × Release))
    → lookup k m ≡ some r
    → str_eq r.app_id app_id ≡ true
    → Memᴰ r (history app_id m)
history-Mem app_id k r m h a =
    sort_by-keeps _ _ (select-keeps (λ r. str_eq r.app_id app_id) (values m) (lookup-Mem k r m h) a)

-- The revision is not taken, whatever is retired.
abbrev pub IsFree : String → ℤ → Release → Type 0
IsFree app_id n r = (str_eq r.app_id app_id && eqb_ℤ r.revision n) ≡ false

insert-IsFree :
    (app_id : String) (n : ℤ) (k : String) (v : Release) (m : List (String × Release))
    → IsFree app_id n v
    → All (IsFree app_id n) (values m)
    → All (IsFree app_id n) (values (insert k v m))
unfolding insert values
insert-IsFree app_id n k v [] f a = (f, tt)
insert-IsFree app_id n k v ((j, w) ∷ m) f (g, a) = elim (Bool-cases (str_eq j k)) [
  | inl e ↦ rw e (f, a)
  | inr e ↦ rw e (g, insert-IsFree app_id n k v m f a)
]

retired-IsFree :
    (status : ReleaseStatus) (app_id : String) (n : ℤ) (rs : List Release)
    (m : List (String × Release))
    → All (IsFree app_id n) rs
    → All (IsFree app_id n) (values m)
    → All (IsFree app_id n) (values (retired status rs m))
retired-IsFree status app_id n [] m f a = a
retired-IsFree status app_id n (r ∷ rs) m (g, f) a = elim (Bool-cases (is_current r)) [
  | inl e ↦ rw e (
      retired-IsFree status app_id n rs _ f
        (insert-IsFree app_id n r.id (record r { status = status }) m g a))
  | inr e ↦ rw e (retired-IsFree status app_id n rs m f a)
]

any-IsFree :
    (app_id : String) (n : ℤ) (rs : List Release)
    → All (IsFree app_id n) rs
    → any (λ e. str_eq e.app_id app_id && eqb_ℤ e.revision n) rs ≡ false
unfolding any
any-IsFree app_id n [] f = refl
any-IsFree app_id n (r ∷ rs) (g, f) = rw (g, any-IsFree app_id n rs f) refl

-- A release of the history is below the next revision; so no release of the table has it.
below-IsFree :
    (app_id : String) (n : ℕ) (m rs : List (String × Release))
    → All (IsBelow (pos n)) (history app_id m)
    → ((r : Release) → Memᴰ r (values rs) → Memᴰ r (values m))
    → All (IsFree app_id (pos n)) (values rs)
unfolding values
below-IsFree app_id n m [] h k = tt
below-IsFree app_id n m ((j, r) ∷ rs) h k =
    (here, below-IsFree app_id n m rs h (λ q i. k q (Memᴰ.tail i)))
  where
    different : (v : ℤ) → ltb_ℤ v (pos n) ≡ true → eqb_ℤ v (pos n) ≡ false
    different v l = ground arith

    here : IsFree app_id (pos n) r
    here = elim (Bool-cases (str_eq r.app_id app_id)) [
      | inr a ↦ rw a refl
      | inl a ↦
          rw
            (
              a,
              different r.revision (
                  All_at (IsBelow (pos n)) (history app_id m) h (
                    sort_by-keeps _ _ (
                      select-keeps (λ r. str_eq r.app_id app_id) (values m) (k r (Memᴰ.head refl))
                        a))),
            )
            refl
    ]

pub history-All :
    (P : Release → Type 0) (app_id : String) (m : List (String × Release))
    → All P (values m)
    → All P (history app_id m)
history-All P app_id m a = All-sort_by _ P _ (All-select P _ (values m) a)

pub next-IsFree :
    (status : ReleaseStatus) (app_id : String) (m : List (String × Release))
    → All HasNext (values m)
    → any
        (λ e. str_eq e.app_id app_id && eqb_ℤ e.revision (next_revision (pos 1) (history app_id m)))
        (values (retired status (history app_id m) m))
      ≡ false
next-IsFree status app_id m h =
    let (n, e, a, below) =
      next_revision_above 1 (history app_id m) (omega arith) (history-All HasNext app_id m h) in
    let free : All (IsFree app_id (pos n)) (values m) =
      below-IsFree app_id n m m below (λ r i. i) in
    rw e (
      any-IsFree app_id (pos n) _ (
        retired-IsFree status app_id (pos n) _ m (history-All (IsFree app_id (pos n)) app_id m free)
          free))
