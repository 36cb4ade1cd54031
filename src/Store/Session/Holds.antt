-- ===== src/Store/Session/Holds.antt =====
-- Rules for a property of the store that a service call keeps, whether it succeeds or fails.
use viro_coolify.Base.{
  Bool, true, false, List, [], ◌∷◌, Error, Result, ok, err, if◌then◌else◌, ◌≡◌, refl, ap, sym, ◌⊎◌,
  inl, inr,
}
use mathlib.Core.Path.{subst}
use viro_coolify.Store.State.{MemoryStore}
use viro_coolify.Store.Session.{
  M, World, pure, continue_with, ◌>>=◌, ◌>>◌, look, unless_fault, may_fail, read, write,
  store_result, on_error, or_fail, lift,
}
use viro_coolify.Store.Session.Reads.{Leaves, Gives, Reads}

module _ (s : MemoryStore) where
  -- To rename every error leaves a reading one.
  on_error-Gives :
      {A : Type 0} (P : A → Type 0) (x : Error) (r : Result A) (w : World)
      → Gives s P (r, w)
      → Gives s P (on_error x r, w)
  on_error-Gives P x (ok a) w g = g
  on_error-Gives P x (err y) w g = g

  pub or_fail-Reads :
      {A : Type 0} (P : A → Type 0) (x : Error) (m : M A) → Reads s m P → Reads s (or_fail x m) P
  or_fail-Reads P x m h = record { gives = λ w e. on_error-Gives P x (m w).0 (m w).1 (h.gives w e) }

  pub lift-Reads :
      {A : Type 0} (P : A → Type 0) (r : Result A) → ((a : A) → r ≡ ok a → P a) → Reads s (lift r) P
  lift-Reads P (ok a) h = record { gives = λ w e. (h a refl, e) }
  lift-Reads P (err x) h = record { gives = λ w e. e }

  -- A read that is looked at gives what the store says, or fails for another reason.
  pub look-read-Reads :
      {A : Type 0} (f : MemoryStore → Result A)
      → Reads s (look (read f)) (λ r. (r ≡ f s) ⊎ (r ≡ err Error.transient))
  unfolding read may_fail
  look-read-Reads {A} f = record { gives = λ w. faulty w.faults w }
    where
      P : Result A → Type 0
      P r = (r ≡ f s) ⊎ (r ≡ err Error.transient)

      faulty :
          (fs : List Bool) (w : World)
          → w.store ≡ s
          → P (unless_fault {A = A} fs Error.transient (λ w. (f w.store, w)) w).0
            × ((unless_fault {A = A} fs Error.transient (λ w. (f w.store, w)) w).1.store ≡ s)
      faulty [] w e = (inl (ap f e), e)
      faulty (true ∷ fs) w e = (inr refl, e)
      faulty (false ∷ fs) w e = (inl (ap f e), e)

module _ (s : MemoryStore) (I : MemoryStore → Type 0) (holds : I s) where
  pub record Holds {A : Type 0} (m : M A) : Type 0 where
    pub after : (w : World) → w.store ≡ s → I (m w).1.store

  Gives-store : {A : Type 0} (P : A → Type 0) (p : Result A × World) → Gives s P p → I p.1.store
  Gives-store P (ok a, w) (g, e) = subst I (sym e) holds
  Gives-store P (err x, w) e = subst I (sym e) holds

  pub Reads-Holds : {A : Type 0} (P : A → Type 0) (m : M A) → Reads s m P → Holds m
  Reads-Holds P m r = record { after = λ w e. Gives-store P (m w) (r.gives w e) }

  pub >>=-Holds :
      {A B : Type 0} (P : A → Type 0) (m : M A) (f : A → M B)
      → Reads s m P
      → ((a : A) → P a → Holds (f a))
      → Holds (m >>= f)
  >>=-Holds {A} P m f r k = record { after = λ w e. next (m w) (r.gives w e) }
    where
      next : (p : Result A × World) → Gives s P p → I (continue_with p f).1.store
      next (ok a, w) (g, e) = (k a g).after w e
      next (err x, w) e = subst I (sym e) holds

  pub if-Holds :
      {A : Type 0} (b : Bool) (m n : M A) → Holds m → Holds n → Holds (if b then m else n)
  if-Holds true m n h k = h
  if-Holds false m n h k = k

  store_result-Holds :
      (w : World) (r : Result MemoryStore) → I w.store → Leaves I r → I (store_result w r).1.store
  store_result-Holds w (ok t) i h = h
  store_result-Holds w (err x) i h = i

  -- A write, and nothing else of the store after it.
  pub write-Holds :
      {A : Type 0} (f : MemoryStore → Result MemoryStore) (a : A)
      → Leaves I (f s)
      → Holds (write f >> pure a)
  unfolding write may_fail
  write-Holds {A} f a h = record { after = λ w e. last (write f w) (faulty w.faults w e) }
    where
      body : (w : World) → w.store ≡ s → I (store_result w (f w.store)).1.store
      body w e =
          store_result-Holds w (f w.store) (subst I (sym e) holds)
            (subst (λ t. Leaves I (f t)) (sym e) h)

      faulty :
          (fs : List Bool) (w : World)
          → w.store ≡ s
          → I (unless_fault fs Error.transient (λ w. store_result w (f w.store)) w).1.store
      faulty [] w e = body w e
      faulty (true ∷ fs) w e = subst I (sym e) holds
      faulty (false ∷ fs) w e = body (record w { faults = fs }) e

      last :
          (p : Result (Unit {0}) × World) → I p.1.store → I (continue_with p (λ _. pure a)).1.store
      last (ok u, w) i = i
      last (err x, w) i = i
