-- ===== src/Store/Session.antt =====
-- How a service reaches the store and the payment provider: one call after another, each of which
-- may fail. The in-memory store never fails; the database behind the same interface does, and so do
-- a provider and a canceled context. `faults` says for each call in turn whether it fails; a call
-- that fails changes nothing. Calls beyond the end of the list succeed.
pub mod Keeps
pub mod Reads
pub mod Outcomes
pub mod Holds
use viro_coolify.Base.{
  String, Bool, true, false, List, [], ◌∷◌, Error, transient, canceled, is_not_found, Result, ok,
  err, if◌then◌else◌,
}
use viro_coolify.Base.Int.{ℤ}
use viro_coolify.Domain.Scalar.{Time}
use viro_coolify.Store.State.{MemoryStore}

-- A usage increment that the provider accepted: the subscription item, the quantity and the time.
pub record Increment : Type 0 where
  pub item_id : String
  pub quantity : ℤ
  pub at : Time

pub record World : Type 0 where
  pub store : MemoryStore
  pub accepted : List Increment
  pub faults : List Bool

-- No call fails.
abbrev pub calm : MemoryStore → List Increment → World
calm s is = record { store = s; accepted = is; faults = [] }

abbrev pub M : Type 0 → Type 0
M A = World → Result A × World

abbrev pub pure : {A : Type 0} → A → M A
pure a w = (ok a, w)

abbrev pub throw : {A : Type 0} → Error → M A
throw e w = (err e, w)

abbrev pub continue_with : {A B : Type 0} → Result A × World → (A → M B) → Result B × World
continue_with (ok a, w) f = f a w
continue_with (err e, w) f = (err e, w)

infixl 5 ◌>>=◌ ◌>>◌
abbrev pub ◌>>=◌ : {A B : Type 0} → M A → (A → M B) → M B
◌>>=◌ m f w = continue_with (m w) f

abbrev pub ◌>>◌ : {B : Type 0} → M (Unit {0}) → M B → M B
◌>>◌ m k w = continue_with (m w) (λ _. k)

-- Go's `v, err := m`, with both for the code to look at.
abbrev pub look : {A : Type 0} → M A → M (Result A)
look m w = (ok (m w).0, (m w).1)

abbrev pub unless_fault : {A : Type 0} → List Bool → Error → M A → M A
unless_fault [] e m w = m w
unless_fault (true ∷ fs) e m w = (err e, record w { faults = fs })
unless_fault (false ∷ fs) e m w = m (record w { faults = fs })

unfoldable pub may_fail : {A : Type 0} → Error → M A → M A
may_fail e m w = unless_fault w.faults e m w

abbrev pub store_result : World → Result MemoryStore → Result (Unit {0}) × World
store_result w (ok s) = (ok tt, record w { store = s })
store_result w (err e) = (err e, w)

abbrev pub store_pair : {A : Type 0} → World → Result (A × MemoryStore) → Result A × World
store_pair w (ok (a, s)) = (ok a, record w { store = s })
store_pair w (err e) = (err e, w)

-- A call of the store that reads, one that writes, and one that does both.
unfoldable pub read : {A : Type 0} → (MemoryStore → Result A) → M A
unfolding may_fail
read f = may_fail transient (λ w. (f w.store, w))

unfoldable pub write : (MemoryStore → Result MemoryStore) → M (Unit {0})
unfolding may_fail
write f = may_fail transient (λ w. store_result w (f w.store))

unfoldable pub update : {A : Type 0} → (MemoryStore → Result (A × MemoryStore)) → M A
unfolding may_fail
update f = may_fail transient (λ w. store_pair w (f w.store))

-- `WithTx` of the in-memory store: nothing is rolled back, and a context that is done fails first.
unfoldable pub with_tx : {A : Type 0} → M A → M A
with_tx m = may_fail canceled m

-- `if errors.Is(err, store.ErrNotFound) { return e }`, and any other error as it is.
abbrev pub renamed {ℓ} : {A : Type ℓ} → Error → Result A → Result A
renamed e (ok a) = ok a
renamed e (err x) = if is_not_found x then err e else err x

abbrev pub on_not_found : {A : Type 0} → Error → M A → M A
on_not_found e m w = (renamed e (m w).0, (m w).1)

-- `if err != nil { return e }`
abbrev pub on_error {ℓ} : {A : Type ℓ} → Error → Result A → Result A
on_error e (ok a) = ok a
on_error e (err x) = err e

abbrev pub or_fail : {A : Type 0} → Error → M A → M A
or_fail e m w = (on_error e (m w).0, (m w).1)

-- `_ = m`
abbrev pub ignoring : {A : Type 0} → M A → M (Unit {0})
ignoring m w = (ok tt, (m w).1)

abbrev pub lift : {A : Type 0} → Result A → M A
lift r w = (r, w)

abbrev pub when : Bool → M (Unit {0}) → M (Unit {0})
when b m = if b then m else pure tt
