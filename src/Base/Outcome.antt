-- ===== src/Base/Outcome.antt =====
-- Errors as values: the sentinel errors of the store and of the services, and Go's (value, error).
use mathlib.Core.Path.{◌≡◌, refl}
use mathlib.Core.Logic.{◌⊎◌, inl, inr}
use mathlib.Core.Bool.{Bool, true, false}
use mathlib.Core.Option.{Option, none, some}

-- `panicked` is a run-time panic. `transient` stands for an error of the database or of a provider that is none of the sentinels,
-- `canceled` for the error of a context. `missing` and `state_conflict` are identity.ErrNotFound and
-- identity.ErrConflict, which are not the store's errors of these names.
pub data Error : Type 0 where
  not_found conflict invalid : Error
  transient canceled panicked : Error
  payment_required unknown_plan no_release no_image : Error
  email_taken invalid_credentials forbidden invitation_invalid : Error
  missing state_conflict invalid_token : Error
  already_exists shard_full : Error
  invalid_domain domain_taken : Error

pub Error-discrete : Discrete Error
Error-discrete = hlevel

pub data Result {ℓ} (A : Type ℓ) : Type ℓ where
  ok : A → Result A
  err : Error → Result A

pub Result-cases {ℓ} :
    {A : Type ℓ} (r : Result A) → ((a : A) × (r ≡ ok a)) ⊎ ((e : Error) × (r ≡ err e))
Result-cases (ok a) = inl (a, refl)
Result-cases (err e) = inr (e, refl)

-- `errors.Is(err, store.ErrNotFound)` and `errors.Is(err, store.ErrConflict)`.
abbrev pub is_not_found : Error → Bool
is_not_found not_found = true
is_not_found _ = false

abbrev pub is_conflict : Error → Bool
is_conflict conflict = true
is_conflict _ = false

-- The look-up of a key, with the store's error where it is missing.
abbrev pub or_error {ℓ} : {A : Type ℓ} → Error → Option A → Result A
or_error e none = err e
or_error e (some a) = ok a
