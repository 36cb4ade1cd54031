-- ===== src/Tests/Services.antt =====
-- The theorems on pages, rate limits, retries, tokens and releases at concrete inputs.
use viro_coolify.Base.{
  ℕ, zero, suc, ◌/◌, ◌≤◌, ◌<◌, String, true, false, List, [], ◌∷◌, Option, none, some, Error,
  transient, not_found, Result, ok, err, ◌≡◌, refl, str_eq, if◌then◌else◌, arith,
}
use viro_coolify.Base.Int.{ℤ, pos, leb_ℤ, ltb_ℤ, ◌-ℤ◌}
use viro_coolify.Base.Table.{select, lookup, contains, values}
use viro_coolify.Base.Member.{All}
use viro_coolify.Domain.Deploy.{Release, ReleaseStatus}
use viro_coolify.Store.Page.{page_of}
use viro_coolify.Store.Session.{calm}
use viro_coolify.Store.Tokens.{revoke_refresh_token_if_active, consume_password_reset_token}
use viro_coolify.Store.Tokens.Single.{wins, rotations_won, resets_won}
use viro_coolify.Httpx.RateLimit.{FixedWindowLimiter, elapsed}
use viro_coolify.Httpx.RateLimit.Window.{Request, admitted, Closed, Within, admitted-allow}
use viro_coolify.Httpx.Pagination.{parse_page}
use viro_coolify.Httpx.Pagination.Walk.{page_of_rows, parse_page-IsBounded, walk, walk_all}
use viro_coolify.Retry.{Attempt, success, failure, default_policy, wait, backoff, do_attempts}
use viro_coolify.Retry.Attempts.{attempts_of, Retried, do_attempts-calls, do_attempts_settled}
use viro_coolify.Retry.Backoff.{step, backoff_lem}
use viro_coolify.Platform.Releases.{is_current, allocate_and_insert_release, pick_rollback_target}
use viro_coolify.Platform.Releases.Rollback.{IsTarget, IsHistory, pick_rollback_target-IsTarget}
use viro_coolify.Platform.Releases.Status.{InForce}
use viro_coolify.Store.Releases.{list_releases_by_app}
use viro_coolify.Store.State.{MemoryStore}
use viro_coolify.Store.Page.{all_rows, page_of}
use viro_coolify.Base.Sort.{insert_sorted, sort_by}
use viro_coolify.Platform.Releases.Retire.{Keyed, IsPastStatus}
use viro_coolify.Platform.Releases.Revision.{HasNext, IsBelow, history}
use viro_coolify.Platform.Releases.Current.{new_release, allocate_only_current}
use viro_coolify.Tests.Data.{session, reset, with_tokens, app, first_release, deployed, snapshot}

-- Releases

keyed : Keyed deployed.releases
keyed = (refl, tt)

unused : contains "rel2" deployed.releases ≡ false
unfolding contains
unused = refl

have_next : All HasNext (values deployed.releases)
unfolding values
have_next = (refl, tt)

past : IsPastStatus ReleaseStatus.superseded
unfolding is_current
past r = refl

allocate_only_current_example :
    let rel = new_release "rel2" 2 app snapshot "" ReleaseStatus.superseded deployed in
    let (r, after) =
      allocate_and_insert_release "rel2" 2 app snapshot "" ReleaseStatus.superseded
        (calm deployed []) in
    (r ≡ ok rel)
    × (lookup "rel2" after.store.releases ≡ some rel)
    × All (IsBelow rel.revision) (history "web" deployed.releases)
    × ((k : String) (q : Release)
        → lookup k after.store.releases ≡ some q
        → str_eq q.app_id "web" ≡ true
        → InForce q.status
        → k ≡ "rel2")
allocate_only_current_example =
    allocate_only_current "rel2" 2 app snapshot "" ReleaseStatus.superseded deployed [] keyed unused
      have_next past

abbrev old_release : Release
old_release = record first_release { id = "rel0"; revision = pos 0; status = ReleaseStatus.failed }

abbrev redeployed : MemoryStore
redeployed = record deployed { releases = ("rel0", old_release) ∷ ("rel1", first_release) ∷ [] }

both_listed : list_releases_by_app redeployed "web" all_rows ≡ ok (first_release ∷ old_release ∷ [])
unfolding list_releases_by_app page_of sort_by insert_sorted select values
both_listed = refl

pick_rollback_target-IsTarget_example :
    IsTarget
      (pos 0)
      (first_release ∷ old_release ∷ [])
      (pick_rollback_target (first_release ∷ old_release ∷ []) (pos 0))
    × IsHistory redeployed "web" (first_release ∷ old_release ∷ [])
pick_rollback_target-IsTarget_example =
    pick_rollback_target-IsTarget redeployed "web" (first_release ∷ old_release ∷ []) (pos 0)
      both_listed

-- Tokens

has_session : lookup "r1" with_tokens.refresh_tokens ≡ some session
unfolding lookup
has_session = refl

rotations_won_example :
    wins revoke_refresh_token_if_active "r1" with_tokens ("r1" ∷ "r2" ∷ "r1" ∷ []) ≡ 1
rotations_won_example =
    rotations_won "r1" with_tokens session ("r1" ∷ "r2" ∷ "r1" ∷ []) has_session refl

has_reset : lookup "p1" with_tokens.reset_tokens ≡ some reset
unfolding lookup
has_reset = refl

resets_won_example :
    wins (λ s j. consume_password_reset_token s j 50) "p1" with_tokens ("p1" ∷ "p1" ∷ []) ≡ 1
resets_won_example = resets_won 50 refl "p1" with_tokens reset ("p1" ∷ "p1" ∷ []) has_reset refl

-- Rate limits

abbrev limiter : FixedWindowLimiter
limiter = record { limit = pos 2; window = pos 60; buckets = [] }

abbrev later : List Request
later = ("ip", 110) ∷ ("other", 115) ∷ ("ip", 120) ∷ []

closed : Closed limiter "ip" 100
unfolding lookup
closed b h = ground arith

within : Within limiter.window 100 (("ip", 100) ∷ later)
unfolding elapsed ◌-ℤ◌
within = (refl, (refl, (refl, (refl, tt))))

admitted-allow_example : admitted limiter "ip" (("ip", 100) ∷ later) ≡ 2
admitted-allow_example =
    admitted-allow limiter "ip" 100 2 later closed refl (omega arith) (omega arith) within

-- Pages

abbrev atoi : String → Result ℤ
atoi v = if str_eq v "500" then ok (pos 500) else err not_found

parse_page-IsBounded_example :
    let p = parse_page atoi "500" "x" in
    (ltb_ℤ (pos 0) p.limit ≡ true)
    × (leb_ℤ p.limit (pos 200) ≡ true)
    × (leb_ℤ (pos 0) p.offset ≡ true)
parse_page-IsBounded_example = parse_page-IsBounded atoi "500" "x"

abbrev letters : List String
letters = "a" ∷ "b" ∷ "c" ∷ []

abbrev later_letters : List String
later_letters = "b" ∷ "c" ∷ []

page_of_rows_example : page_of letters (record { limit = pos 2; offset = pos 1 }) ≡ ok later_letters
page_of_rows_example = page_of_rows letters 2 1 (omega arith) (omega arith)

walk_all_example : walk 4 letters (record { limit = pos 2; offset = pos 0 }) ≡ letters
walk_all_example = walk_all 2 letters (omega arith) (omega arith)

-- Retries

abbrev calls : ℕ → Attempt
calls zero = failure transient
calls (suc n) = success

abbrev no_draw : ℕ → ℤ → ℤ
no_draw attempt n = pos 0

abbrev no_err : ℕ → Option Error
no_err attempt = none

abbrev no_timer : ℕ → ℤ → Option Error
no_timer attempt d = none

do_attempts-calls_example :
    let calls_made = (do_attempts calls no_draw no_err no_timer default_policy).1 in
    (1 ≤ calls_made) × (calls_made ≤ attempts_of default_policy)
do_attempts-calls_example = do_attempts-calls calls no_draw no_err no_timer default_policy

quiet : (n : ℕ) (d : ℤ) → wait calls no_draw no_err no_timer n d ≡ none
unfolding wait
quiet n d = ground arith

retried : (j : ℕ) → j < 1 → Retried calls no_draw no_err no_timer default_policy j
retried zero h = ((transient, refl), quiet 0 _)
retried (suc j) h = absurd (omega arith)

allowed : 1 < attempts_of default_policy
unfolding default_policy
allowed = omega arith

do_attempts_settled_example : do_attempts calls no_draw no_err no_timer default_policy ≡ (ok tt, 2)
do_attempts_settled_example =
    do_attempts_settled calls no_draw no_err no_timer default_policy 1 (ok tt) allowed retried refl

drawn : (n : ℕ) → 0 < n → (r : ℕ) × (r < n) × (pos 0 ≡ pos r)
drawn n h = (0, h, refl)

backoff_lem_example :
    (j : ℕ) × (backoff
        (λ n. pos 0)
        (record { max_attempts = pos 3; base_delay = pos 200; max_delay = pos 2000; jitter = true })
        2
      ≡ pos j)
    × ((step (λ n. pos 0) 2000 200 2 / 2 ≤ j) × (j ≤ step (λ n. pos 0) 2000 200 2))
backoff_lem_example =
    backoff_lem (λ n. pos 0) (pos 3) 2000 200 2 (omega arith) (omega arith) (omega arith) drawn true
