-- ===== src/Store/Audit.antt =====
-- internal/store/memory.go: reading the audit log, the look-up of a verified host, and the reports on
-- all usage.
pub mod Paging
use viro_coolify.Base.{
  ℕ, zero, suc, ◌+◌, String, Bool, true, false, ◌&&◌, ◌||◌, List, [], ◌∷◌, ◌++◌, none, some, Result,
  ok, err, not_found, or_error, str_eq, ltb, length, if◌then◌else◌,
}
use viro_coolify.Base.Int.{ℤ, pos, pos_part, leb_ℤ, ltb_ℤ, ◌+64◌}
use viro_coolify.Base.Table.{Table, lookup, insert, values, find, select}
use viro_coolify.Domain.Access.{AuditEvent, AuditFilter}
use viro_coolify.Domain.Billing.{UsageRecord}
use viro_coolify.Domain.Deploy.{Domain, DomainStatus}
use viro_coolify.Store.State.{MemoryStore}

-- The list from its end on
unfoldable pub backwards : {A : Type 0} → List A → List A → List A
backwards [] ys = ys
backwards (x ∷ xs) ys = backwards xs (x ∷ ys)

-- What the loop of `ListAuditEvents` does with an event of the org: `skip` more to pass over, and room
-- for `left` more.
abbrev pub audit_step : AuditEvent → ℕ → ℕ → (ℕ → ℕ → List AuditEvent) → List AuditEvent
audit_step e (suc skip) left go = go skip left
audit_step e zero zero go = e ∷ []
audit_step e zero (suc zero) go = e ∷ []
audit_step e zero (suc (suc left)) go = e ∷ go zero (suc left)

unfoldable pub audit_from : String → ℕ → ℕ → List AuditEvent → List AuditEvent
audit_from org_id skip left [] = []
audit_from org_id skip left (e ∷ es) =
    let rest = audit_from org_id skip left es in
    let step = audit_step e skip left (λ k n. audit_from org_id k n es) in
    if str_eq e.org_id org_id then step else rest

-- The limit and the offset that a filter stands for: 50 for a limit that is not positive, 200 at most.
unfoldable pub audit_limit : AuditFilter → ℕ
audit_limit f =
    let n = if leb_ℤ f.limit (pos 0) then 50 else pos_part f.limit in if ltb 200 n then 200 else n

unfoldable pub list_audit_events : MemoryStore → AuditFilter → Result (List AuditEvent)
unfolding audit_from audit_limit backwards
list_audit_events s f =
    ok (audit_from f.org_id (pos_part f.offset) (audit_limit f) (backwards s.audit_events []))

unfoldable pub count_audit_events : MemoryStore → AuditFilter → Result ℕ
count_audit_events s f = ok (length (select (λ e. str_eq e.org_id f.org_id) s.audit_events))

-- `Domain.IsVerified`
unfoldable pub is_verified : Domain → Bool
is_verified d = elim d.status [
  | DomainStatus.verified ↦ true
  | DomainStatus.other t ↦ str_eq t "" && d.verified
  | _ ↦ false
]

-- `fold` is the text that Go's EqualFold compares, and `clean` trims and lowers the host.
unfoldable pub get_verified_domain_by_host :
    (String → String) → (String → String) → MemoryStore → String → Result Domain
unfolding is_verified
get_verified_domain_by_host fold clean s host =
    or_error not_found
      (find (λ d. is_verified d && str_eq (fold d.domain) (fold (clean host))) (values s.domains))

unfoldable pub all_usage : List (List UsageRecord) → List UsageRecord
all_usage [] = []
all_usage (us ∷ rest) = us ++ all_usage rest

unfoldable pub list_all_usage : MemoryStore → Result (List UsageRecord)
unfolding all_usage
list_all_usage s = ok (all_usage (values s.usage))

-- A missing key reads as 0.
unfoldable pub sum_by_metric : Table ℤ → List UsageRecord → Table ℤ
sum_by_metric m [] = m
sum_by_metric m (u ∷ us) =
    sum_by_metric
      (insert u.metric (elim (lookup u.metric m) [ none ↦ u.quantity | some q ↦ q +64 u.quantity ])
        m)
      us

unfoldable pub sum_usage_by_metric : MemoryStore → Result (Table ℤ)
unfolding all_usage sum_by_metric
sum_usage_by_metric s = ok (sum_by_metric [] (all_usage (values s.usage)))
