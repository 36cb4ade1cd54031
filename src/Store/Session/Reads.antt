-- ===== src/Store/Session/Reads.antt =====
-- Rules for a service call that leaves the store as it is: what its successful result says of the
-- store, whatever calls fail.
use viro_coolify.Base.{
  Bool, true, false, List, [], ◌∷◌, Error, Result, ok, err, is_not_found, ◌≡◌, refl, ◌∙◌, sym, ap,
  inl, inr, Bool-cases, if◌then◌else◌,
}
use mathlib.Core.Path.{subst}
use viro_coolify.Store.State.{MemoryStore}
use viro_coolify.Store.Session.{
  M, World, pure, throw, continue_with, ◌>>=◌, unless_fault, ◌>>◌, may_fail, read, write,
  store_result, renamed, on_not_found,
}

-- A successful write leaves a store with a property.
abbrev pub Leaves : (MemoryStore → Type 0) → Result MemoryStore → Type 0
Leaves I (ok t) = I t
Leaves I (err e) = Unit {0}

module _ (s : MemoryStore) where
  -- The outcome of a call whose store is `s` afterwards, and whose value has a property.
  abbrev pub Gives : {A : Type 0} → (A → Type 0) → Result A × World → Type 0
  Gives P (ok a, w) = P a × (w.store ≡ s)
  Gives P (err e, w) = w.store ≡ s

  pub record Reads {A : Type 0} (m : M A) (P : A → Type 0) : Type 0 where
    pub gives : (w : World) → w.store ≡ s → Gives P (m w)

  pub pure-Reads : {A : Type 0} (P : A → Type 0) (a : A) → P a → Reads (pure a) P
  pure-Reads P a p = record { gives = λ w e. (p, e) }

  pub throw-Reads : {A : Type 0} (P : A → Type 0) (e : Error) → Reads (throw e) P
  throw-Reads P e = record { gives = λ w h. h }

  continue_with-Gives :
      {A B : Type 0} (P : A → Type 0) (Q : B → Type 0) (p : Result A × World) (f : A → M B)
      → Gives P p
      → ((a : A) → P a → Reads (f a) Q)
      → Gives Q (continue_with p f)
  continue_with-Gives P Q (ok a, w) f (pa, e) k = (k a pa).gives w e
  continue_with-Gives P Q (err x, w) f e k = e

  pub >>=-Reads :
      {A B : Type 0} (P : A → Type 0) (Q : B → Type 0) (m : M A) (f : A → M B)
      → Reads m P
      → ((a : A) → P a → Reads (f a) Q)
      → Reads (m >>= f) Q
  >>=-Reads P Q m f h k = record { gives = λ w e. continue_with-Gives P Q (m w) f (h.gives w e) k }

  result-Gives :
      {A : Type 0} (P : A → Type 0) (r : Result A) (w : World)
      → ((a : A) → r ≡ ok a → P a)
      → w.store ≡ s
      → Gives P (r, w)
  result-Gives P (ok a) w h e = (h a refl, e)
  result-Gives P (err x) w h e = e

  pub read-Reads :
      {A : Type 0} (P : A → Type 0) (f : MemoryStore → Result A)
      → ((a : A) → f s ≡ ok a → P a)
      → Reads (read f) P
  unfolding read may_fail
  read-Reads {A} P f h = record { gives = λ w. faulty w.faults w }
    where
      body : (w : World) → w.store ≡ s → Gives P (f w.store, w)
      body w e = result-Gives P (f w.store) w (λ a q. h a (ap f (sym e) ∙ q)) e

      faulty :
          (fs : List Bool) (w : World)
          → w.store ≡ s
          → Gives P (unless_fault {A = A} fs Error.transient (λ w. (f w.store, w)) w)
      faulty [] w e = body w e
      faulty (true ∷ fs) w e = e
      faulty (false ∷ fs) w e = body (record w { faults = fs }) e

  renamed-Gives :
      {A : Type 0} (P : A → Type 0) (x : Error) (r : Result A) (w : World)
      → Gives P (r, w)
      → Gives P (renamed x r, w)
  renamed-Gives P x (ok a) w g = g
  renamed-Gives P x (err y) w g = elim (Bool-cases (is_not_found y)) [
    | inl e ↦ rw e g
    | inr e ↦ rw e g
  ]

  pub on_not_found-Reads :
      {A : Type 0} (P : A → Type 0) (x : Error) (m : M A) → Reads m P → Reads (on_not_found x m) P
  on_not_found-Reads P x m h = record {
    gives = λ w e. renamed-Gives P x (m w).0 (m w).1 (h.gives w e);
  }

  pub if-Reads :
      {A : Type 0} (P : A → Type 0) (b : Bool) (m n : M A)
      → (b ≡ true → Reads m P)
      → (b ≡ false → Reads n P)
      → Reads (if b then m else n) P
  if-Reads P true m n h k = h refl
  if-Reads P false m n h k = k refl

  weaker-Gives :
      {A : Type 0} (P Q : A → Type 0) (p : Result A × World)
      → Gives P p
      → ((a : A) → P a → Q a)
      → Gives Q p
  weaker-Gives P Q (ok a, w) (g, e) h = (h a g, e)
  weaker-Gives P Q (err x, w) g h = g

  pub weaker-Reads :
      {A : Type 0} (P Q : A → Type 0) (m : M A) → Reads m P → ((a : A) → P a → Q a) → Reads m Q
  weaker-Reads P Q m r h = record { gives = λ w e. weaker-Gives P Q (m w) (r.gives w e) h }

  -- A write behind a guard: `G` is what the guard makes sure of.
  store_result-Leaves :
      (I : MemoryStore → Type 0) (w : World) (r : Result MemoryStore)
      → I w.store
      → Leaves I r
      → I (store_result w r).1.store
  store_result-Leaves I w (ok t) i h = h
  store_result-Leaves I w (err x) i h = i

  write-Leaves :
      (I : MemoryStore → Type 0) (f : MemoryStore → Result MemoryStore) (x : Error)
      → I s
      → Leaves I (f s)
      → (w : World) → w.store ≡ s
      → I (on_not_found x (write f) w).1.store
  unfolding write may_fail
  write-Leaves I f x i h w e = faulty w.faults w e
    where
      body : (w : World) → w.store ≡ s → I (store_result w (f w.store)).1.store
      body w e =
          store_result-Leaves I w (f w.store) (subst I (sym e) i)
            (subst (λ t. Leaves I (f t)) (sym e) h)

      faulty :
          (fs : List Bool) (w : World)
          → w.store ≡ s
          → I (unless_fault fs Error.transient (λ w. store_result w (f w.store)) w).1.store
      faulty [] w e = body w e
      faulty (true ∷ fs) w e = subst I (sym e) i
      faulty (false ∷ fs) w e = body (record w { faults = fs }) e

  pub checked_write :
      (I : MemoryStore → Type 0) (G : Type 0) (m : M (Unit {0}))
      (f : MemoryStore → Result MemoryStore) (x : Error)
      → Reads m (λ _. G)
      → I s
      → (G → Leaves I (f s))
      → (w : World) → w.store ≡ s
      → I ((m >> on_not_found x (write f)) w).1.store
  checked_write I G m f x r i h w e = after (m w) (r.gives w e)
    where
      after :
          (p : Result (Unit {0}) × World)
          → Gives (λ _. G) p
          → I (continue_with p (λ _. on_not_found x (write f))).1.store
      after (ok u, v) (g, q) = write-Leaves I f x i (h g) v q
      after (err y, v) q = subst I (sym q) i
