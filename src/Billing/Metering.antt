-- ===== src/Billing/Metering.antt =====
-- internal/billing/pricing.go: the hours that a tick of the meter makes up for, and its watermark.
pub mod Hours
pub mod Tick
use viro_coolify.Base.{
  ℕ, zero, suc, ◌+◌, ◌-◌, ◌%◌, Bool, true, false, not, ◌||◌, List, [], ◌∷◌, Option, none, some,
  Error, Result, ok, err, ltb, ◌==◌, if◌then◌else◌,
}
use viro_coolify.Domain.Scalar.{Time}
use viro_coolify.Domain.Billing.{MeterState}
use viro_coolify.Store.Session.{M, pure, ◌>>=◌, look, read, write}
use viro_coolify.Store.Billing.{get_meter_state, set_meter_state}

-- `time.Hour`, in nanoseconds.
abbrev pub hour : ℕ
hour = 3600000000000

abbrev pub max_catchup_hours : ℕ
max_catchup_hours = 48

-- `t.Truncate(time.Hour)`, which counts from the zero time.
unfoldable pub truncate : Time → Time
truncate t = t - t % hour

-- The loop of `hoursToMeter`, with so many hours left to append.
unfoldable pub hours_from : ℕ → Time → Time → List Time
hours_from zero h current = []
hours_from (suc left) h current =
    let rest = hours_from left (h + hour) current in if ltb current h then [] else h ∷ rest

unfoldable pub hours_after : Time → Time → List Time
unfolding hours_from
hours_after last current =
    if last == 0 || not (ltb last current)
    then if last == current then [] else current ∷ []
    else hours_from max_catchup_hours (last + hour) current

abbrev last_metered : Result MeterState → Time
last_metered (ok st) = truncate st.last_metered_hour
last_metered (err e) = 0

-- `Service.hoursToMeter`
unfoldable pub hours_to_meter : Time → M (List Time)
hours_to_meter current =
    look (read get_meter_state) >>= λ r. pure (hours_after (last_metered r) current)

-- An error of the write counts only where there was none before.
abbrev first_error : Option Error → Result (Unit {0}) → Option Error
first_error first (ok _) = first
first_error none (err e) = some e
first_error (some f) (err e) = some f

-- `Service.persistAndReturn`
unfoldable pub persist_and_return : Time → Option Error → M (Option Error)
persist_and_return last_done first =
    if last_done == 0
    then pure first
    else look (write (λ s. set_meter_state s (record { last_metered_hour = last_done }))) >>= λ r.
        pure (first_error first r)
