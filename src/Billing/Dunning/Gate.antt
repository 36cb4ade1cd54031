-- ===== src/Billing/Dunning/Gate.antt =====
-- DunningStatus tells what EnsureActive does.
use viro_coolify.Base.{String, List, ok, err, payment_required, ◌≡◌, if◌then◌else◌, arith}
use viro_coolify.Domain.Scalar.{Time}
use viro_coolify.Store.State.{MemoryStore}
use viro_coolify.Store.Session.{Increment, calm, read}
use viro_coolify.Billing.Account.{grace_past_due, gate_status, ensure_active, ensure_under_cap}
use viro_coolify.Billing.Dunning.{Dunning, standing, dunning_status}

-- Where no call fails, an org whose standing is reported as blocked is refused by the gate with
-- "payment required", and any other passes on to the check of its spend cap alone.
pub ensure_active-dunning_status :
    (month_before : Time → Time) (now : Time) (org_id : String) (s : MemoryStore)
    (is : List Increment) (d : Dunning)
    → (dunning_status org_id (calm s is)).0 ≡ ok d
    → (ensure_active month_before now org_id (calm s is)).0 ≡ (
        if d.blocked
        then err payment_required
        else (ensure_under_cap month_before now org_id (calm s is)).0)
unfolding dunning_status ensure_active standing gate_status read grace_past_due
ensure_active-dunning_status month_before now org_id s is d h = ground arith
