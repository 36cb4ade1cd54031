-- ===== src/Platform/Releases/Rollback.antt =====
-- internal/platform/releases.go: which release a rollback goes to.
use mathlib.Core.List.{Memᴰ}
use viro_coolify.Base.{
  zero, suc, String, Bool, true, false, not, List, [], ◌∷◌, Option, none, some, ok, str_eq, ◌≡◌,
  ◌⊎◌, refl, sym, ◌∙◌, Bool-cases, inl, inr, arith, eq_iff,
}
use mathlib.Core.Path.{subst}
use viro_coolify.Base.Int.{ℤ, pos, negsuc, ◌≤ℤ◌, ltb_ℤ, eqb_ℤ}
use viro_coolify.Base.Table.{find, values, select}
use viro_coolify.Base.Sort.{insert_sorted, sort_by}
use viro_coolify.Base.Member.{All, All-insert_sorted, All-sort_by, sort_by-keeps, select-keeps}
use viro_coolify.Domain.Deploy.{Release}
use viro_coolify.Store.State.{MemoryStore}
use viro_coolify.Store.Page.{all_rows}
use viro_coolify.Store.Releases.{list_releases_by_app}
use viro_coolify.Store.Session.Outcomes.{ok_injective}
use viro_coolify.Platform.Releases.{is_current, pick_rollback_target}
use viro_coolify.Platform.Releases.Status.{InForce, is_current-InForce}
use viro_coolify.Platform.Releases.Revision.{history, list_releases_all}

-- What a rollback looks for: the revision asked for, or, where none is, a release that is neither active
-- nor deploying.
abbrev pub IsWanted : ℤ → Release → Type 0
IsWanted (pos (suc n)) r = r.revision ≡ pos (suc n)
IsWanted (pos zero) r = ¬ InForce r.status
IsWanted (negsuc n) r = ¬ InForce r.status

-- Of the releases that are looked for, one with the largest revision; none only where there is none.
abbrev pub IsTarget : ℤ → List Release → Option Release → Type 0
IsTarget revision rels none = All (λ r. ¬ IsWanted revision r) rels
IsTarget revision rels (some r) =
    Memᴰ r rels
    × IsWanted revision r
    × All (λ q. (¬ IsWanted revision q) ⊎ (q.revision ≤ℤ r.revision)) rels

-- The newest revision comes first.
abbrev Descending : List Release → Type 0
Descending [] = Unit {0}
Descending (r ∷ rs) = All (λ q. q.revision ≤ℤ r.revision) rs × Descending rs

abbrev newer : Release → Release → Bool
newer a b = ltb_ℤ b.revision a.revision

All-below :
    (a b : Release) (rs : List Release)
    → b.revision ≤ℤ a.revision
    → All (λ q. q.revision ≤ℤ b.revision) rs
    → All (λ q. q.revision ≤ℤ a.revision) rs
All-below a b [] h l = tt
All-below a b (r ∷ rs) h (l, ls) = (omega (arith, h, l), All-below a b rs h ls)

insert-Descending :
    (r : Release) (rs : List Release) → Descending rs → Descending (insert_sorted newer r rs)
unfolding insert_sorted
insert-Descending r [] d = (tt, tt)
insert-Descending r (q ∷ rs) (l, d) = elim (Bool-cases (newer q r)) [
  | inl e ↦ rw e (
    All-insert_sorted newer (λ x. x.revision ≤ℤ q.revision) r rs (ground (arith, e)) l,
    insert-Descending r rs d,
  )
  | inr e ↦
      let below : q.revision ≤ℤ r.revision = ground (arith, e) in
      rw e ((below, All-below r q rs below l), (l, d))
]

sort-Descending : (rs : List Release) → Descending (sort_by newer rs)
unfolding sort_by
sort-Descending [] = tt
sort-Descending (r ∷ rs) = insert-Descending r (sort_by newer rs) (sort-Descending rs)

-- A test that accepts exactly the releases that are looked for.
abbrev Tests : (Release → Bool) → ℤ → Type 0
Tests p revision =
    (r : Release) → ((p r ≡ true) × IsWanted revision r) ⊎ ((p r ≡ false) × ¬ IsWanted revision r)

further :
    (revision : ℤ) (r : Release) (rs : List Release) (o : Option Release)
    → ¬ IsWanted revision r
    → IsTarget revision rs o
    → IsTarget revision (r ∷ rs) o
further revision r rs none n t = (n, t)
further revision r rs (some q) n (m, w, a) = (Memᴰ.tail m, w, (inl n, a))

below_each :
    (revision : ℤ) (a : Release) (rs : List Release)
    → All (λ q. q.revision ≤ℤ a.revision) rs
    → All (λ q. (¬ IsWanted revision q) ⊎ (q.revision ≤ℤ a.revision)) rs
below_each revision a [] l = tt
below_each revision a (r ∷ rs) (l, ls) = (inr l, below_each revision a rs ls)

find-IsTarget :
    (p : Release → Bool) (revision : ℤ) (rels : List Release)
    → Tests p revision
    → Descending rels
    → IsTarget revision rels (find p rels)
unfolding find
find-IsTarget p revision [] t d = tt
find-IsTarget p revision (r ∷ rs) t (l, d) = elim (t r) [
  | inl (e, w) ↦ rw e (Memᴰ.head refl, w, (inr (omega arith), below_each revision r rs l))
  | inr (e, n) ↦ rw e (further revision r rs (find p rs) n (find-IsTarget p revision rs t d))
]

same_revision : (n : ℤ) (r : Release) → eqb_ℤ r.revision n ≡ true → r.revision ≡ n
same_revision n r h = same r.revision n h
  where
    same : (a b : ℤ) → eqb_ℤ a b ≡ true → a ≡ b
    same (pos a) (pos b) h = ground (arith, h)
    same (pos a) (negsuc b) h = ground (arith, h)
    same (negsuc a) (pos b) h = ground (arith, h)
    same (negsuc a) (negsuc b) h = ground (arith, h)

asked :
    (n : ℤ) (r : Release)
    → ((eqb_ℤ r.revision n ≡ true) × (r.revision ≡ n))
      ⊎ ((eqb_ℤ r.revision n ≡ false) × ¬ (r.revision ≡ n))
asked n r = elim (Bool-cases (eqb_ℤ r.revision n)) [
  | inl e ↦ inl (e, same_revision n r e)
  | inr e ↦
      inr (e, λ q. ground (arith, e, subst (λ m. eqb_ℤ r.revision m ≡ true) q (self r.revision)))
]
  where
    self : (a : ℤ) → eqb_ℤ a a ≡ true
    self a = ground arith

not_current :
    (r : Release)
    → ((not (is_current r) ≡ true) × ¬ InForce r.status)
      ⊎ ((not (is_current r) ≡ false) × ¬ (¬ InForce r.status))
not_current r = elim (is_current-InForce r) [
  | inl (e, f) ↦ inr (rw e refl, λ n. n f)
  | inr (e, n) ↦ inl (rw e refl, n)
]

pick-IsTarget :
    (rels : List Release) (revision : ℤ)
    → Descending rels
    → IsTarget revision rels (pick_rollback_target rels revision)
unfolding pick_rollback_target
pick-IsTarget rels (pos (suc n)) d =
    let e : ltb_ℤ (pos 0) (pos (suc n)) ≡ true = ground arith in
    rw e (find-IsTarget _ (pos (suc n)) rels (asked (pos (suc n))) d)
pick-IsTarget rels (pos zero) d = find-IsTarget _ (pos zero) rels not_current d
pick-IsTarget rels (negsuc n) d =
    let e : ltb_ℤ (pos 0) (negsuc n) ≡ false = ground arith in
    rw e (find-IsTarget _ (negsuc n) rels not_current d)

select-of_app :
    (app_id : String) (rs : List Release)
    → All (λ r. r.app_id ≡ app_id) (select (λ r. str_eq r.app_id app_id) rs)
unfolding select
select-of_app app_id [] = tt
select-of_app app_id (r ∷ rs) = elim (Bool-cases (str_eq r.app_id app_id)) [
  | inl e ↦ rw e ((eq_iff r.app_id app_id).0 e, select-of_app app_id rs)
  | inr e ↦ rw e (select-of_app app_id rs)
]

-- The list holds the releases of the app, all of them and no others.
abbrev pub IsHistory : MemoryStore → String → List Release → Type 0
IsHistory s app_id rels =
    All (λ r. r.app_id ≡ app_id) rels
    × ((r : Release) → Memᴰ r (values s.releases) → r.app_id ≡ app_id → Memᴰ r rels)

history-IsHistory :
    (s : MemoryStore) (app_id : String) → IsHistory s app_id (history app_id s.releases)
history-IsHistory s app_id = (
  All-sort_by newer (λ r. r.app_id ≡ app_id) _ (select-of_app app_id (values s.releases)),
  λ r m e. sort_by-keeps newer _ (
      select-keeps (λ r. str_eq r.app_id app_id) (values s.releases) m
        ((eq_iff r.app_id app_id).1 e)),
)

-- The target of a rollback of an app, picked from the releases that the store lists for it, is of the
-- revision asked for or, where none is, one with the largest revision of those that are neither active
-- nor deploying; there is no target only where the list has no such release, and the list has the
-- releases of the app, all of them and no others.
pub pick_rollback_target-IsTarget :
    (s : MemoryStore) (app_id : String) (rels : List Release) (revision : ℤ)
    → list_releases_by_app s app_id all_rows ≡ ok rels
    → IsTarget revision rels (pick_rollback_target rels revision) × IsHistory s app_id rels
pick_rollback_target-IsTarget s app_id rels revision listed =
    let same : history app_id s.releases ≡ rels =
      ok_injective (sym (list_releases_all s app_id) ∙ listed) in
    (
      pick-IsTarget rels revision (subst Descending same (sort-Descending _)),
      subst (IsHistory s app_id) same (history-IsHistory s app_id),
    )
