-- ===== src/Platform/Releases/Status.antt =====
-- internal/platform/releases.go: which statuses make a release current.
use viro_coolify.Base.{true, false, ◌≡◌, ◌≢◌, ◌⊎◌, refl, inl, inr, arith}
use viro_coolify.Domain.Deploy.{Release, ReleaseStatus}
use viro_coolify.Platform.Releases.{is_current}

-- Active, or on the way to it.
abbrev pub InForce : ReleaseStatus → Type 0
InForce st = (st ≡ ReleaseStatus.active) ⊎ (st ≡ ReleaseStatus.deploying)

neither_status :
    (st : ReleaseStatus) → st ≢ ReleaseStatus.active → st ≢ ReleaseStatus.deploying → ¬ InForce st
neither_status st a d (inl e) = a e
neither_status st a d (inr e) = d e

-- The code's test is right.
pub is_current-InForce :
    (r : Release)
    → ((is_current r ≡ true) × InForce r.status) ⊎ ((is_current r ≡ false) × ¬ InForce r.status)
unfolding is_current
is_current-InForce r = at_status r.status
  where
    at_status :
        (st : ReleaseStatus)
        → ((is_current (record r { status = st }) ≡ true) × InForce st)
          ⊎ ((is_current (record r { status = st }) ≡ false) × ¬ InForce st)
    at_status ReleaseStatus.deploying = inl (refl, inr refl)
    at_status ReleaseStatus.active = inl (refl, inl refl)
    at_status ReleaseStatus.failed =
        inr (refl, neither_status _ (λ e. ground (arith, e)) (λ e. ground (arith, e)))
    at_status ReleaseStatus.superseded =
        inr (refl, neither_status _ (λ e. ground (arith, e)) (λ e. ground (arith, e)))
    at_status ReleaseStatus.rolled_back =
        inr (refl, neither_status _ (λ e. ground (arith, e)) (λ e. ground (arith, e)))
    at_status (ReleaseStatus.other t) =
        inr (refl, neither_status _ (λ e. ground (arith, e)) (λ e. ground (arith, e)))

pub InForce-is_current : (r : Release) → InForce r.status → is_current r ≡ true
InForce-is_current r h = elim (is_current-InForce r) [ inl (c, _) ↦ c | inr (_, n) ↦ absurd (n h) ]
