-- ===== src/Store/Audit/Paging.antt =====
-- internal/store/memory.go: the loop over the audit log is a page of the org's events.
use viro_coolify.Base.{
  ℕ, zero, suc, ◌<◌, String, Bool, List, [], ◌∷◌, ◌++◌, ok, str_eq, take, drop, ◌≡◌, refl, ap, sym,
  ◌∙◌, ltb, if◌then◌else◌, inl, inr, Bool-cases, arith,
}
use viro_coolify.Base.Int.{ℤ, pos, negsuc, pos_part, leb_ℤ}
use viro_coolify.Base.Table.{select}
use viro_coolify.Domain.Access.{AuditEvent, AuditFilter}
use viro_coolify.Store.State.{MemoryStore}
use viro_coolify.Store.Audit.{audit_step, audit_from, audit_limit, backwards, list_audit_events}

-- The largest number of events on a page, from the limit of a request: 50 where it is not positive, and
-- 200 at most.
abbrev pub page_size : ℤ → ℕ
page_size (negsuc n) = 50
page_size (pos zero) = 50
page_size (pos (suc n)) = if ltb (suc n) 200 then suc n else 200

-- A list from its end on.
abbrev pub newest_first : {A : Type 0} → List A → List A
newest_first [] = []
newest_first (x ∷ xs) = newest_first xs ++ (x ∷ [])

append_assoc : {A : Type 0} (xs ys zs : List A) → (xs ++ ys) ++ zs ≡ xs ++ (ys ++ zs)
append_assoc [] ys zs = refl
append_assoc (x ∷ xs) ys zs = ap (λ l. x ∷ l) (append_assoc xs ys zs)

append_nil : {A : Type 0} (xs : List A) → xs ++ [] ≡ xs
append_nil [] = refl
append_nil (x ∷ xs) = ap (λ l. x ∷ l) (append_nil xs)

backwards_lem : {A : Type 0} (xs ys : List A) → backwards xs ys ≡ newest_first xs ++ ys
unfolding backwards
backwards_lem [] ys = refl
backwards_lem (x ∷ xs) ys =
    backwards_lem xs (x ∷ ys) ∙ sym (append_assoc (newest_first xs) (x ∷ []) ys)

audit_limit_lem : (f : AuditFilter) → audit_limit f ≡ page_size f.limit
unfolding audit_limit
audit_limit_lem f = sized f.limit
  where
    sized :
        (l : ℤ)
        → (let n = if leb_ℤ l (pos 0) then 50 else pos_part l in if ltb 200 n then 200 else n)
          ≡ page_size l
    sized (negsuc n) = ground arith
    sized (pos zero) = ground arith
    sized (pos (suc n)) = ground arith

page_size_positive : (l : ℤ) → 0 < page_size l
page_size_positive (negsuc n) = omega arith
page_size_positive (pos zero) = omega arith
page_size_positive (pos (suc n)) = ground arith

module _ (org_id : String) where
  abbrev of_org : AuditEvent → Bool
  of_org e = str_eq e.org_id org_id

  audit_from_lem :
      (es : List AuditEvent) (skip left : ℕ)
      → audit_from org_id skip (suc left) es ≡ take (suc left) (drop skip (select of_org es))
  unfolding audit_from select
  audit_from_lem [] zero left = refl
  audit_from_lem [] (suc skip) left = refl
  audit_from_lem (e ∷ es) skip left = elim (Bool-cases (of_org e)) [
    | inl h ↦ rw h (stepped skip left (audit_from_lem es))
    | inr h ↦ rw h (audit_from_lem es skip left)
  ]
    where
      stepped :
          (skip left : ℕ)
          → ((k n : ℕ) → audit_from org_id k (suc n) es ≡ take (suc n) (drop k (select of_org es)))
          → audit_step e skip (suc left) (λ k n. audit_from org_id k n es)
            ≡ take (suc left) (drop skip (e ∷ select of_org es))
      stepped (suc skip) left ih = ih skip left
      stepped zero zero ih = refl
      stepped zero (suc left) ih = ap (λ xs. e ∷ xs) (ih zero left)

-- ListAuditEvents is the page of the org's events, the newest first, that the limit (50 where it is not
-- positive, and 200 at most) and the offset (0 where it is negative) of the filter cut out.
pub list_audit_events_lem :
    (s : MemoryStore) (f : AuditFilter)
    → list_audit_events s f
      ≡ ok (
          take (page_size f.limit) (
            drop
              (pos_part f.offset)
              (select (λ e. str_eq e.org_id f.org_id) (newest_first s.audit_events))))
unfolding list_audit_events
list_audit_events_lem s f =
    rw
      (audit_limit_lem f, backwards_lem s.audit_events [], append_nil (newest_first s.audit_events))
      (ap ok (at_limit (page_size f.limit) (page_size_positive f.limit)))
  where
    at_limit :
        (n : ℕ)
        → 0 < n
        → audit_from f.org_id (pos_part f.offset) n (newest_first s.audit_events)
          ≡ take n (
              drop
                (pos_part f.offset)
                (select (λ e. str_eq e.org_id f.org_id) (newest_first s.audit_events)))
    at_limit zero h = ground (arith, h)
    at_limit (suc n) h = audit_from_lem f.org_id (newest_first s.audit_events) (pos_part f.offset) n
