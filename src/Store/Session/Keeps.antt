-- ===== src/Store/Session/Keeps.antt =====
-- Rules for showing that a service call leaves a part of the store alone, whatever calls fail.
use viro_coolify.Base.{
  Bool, true, false, List, [], ◌∷◌, Error, Result, ok, err, ◌≡◌, refl, ◌∙◌, if◌then◌else◌,
}
use viro_coolify.Store.State.{MemoryStore}
use viro_coolify.Store.Session.{
  M, World, pure, throw, continue_with, ◌>>=◌, look, unless_fault, may_fail, store_result,
  store_pair, read, write, update,
}

-- `view` is the part of the store that stays as it is.
module _ {V : Type 0} (view : MemoryStore → V) where
  pub record Keeps {A : Type 0} (m : M A) : Type 0 where
    pub kept : (w : World) → view (m w).1.store ≡ view w.store

  pub continue_with-Keeps :
      {A B : Type 0} (p : Result A × World) (f : A → M B) {v : V}
      → view p.1.store ≡ v
      → ((a : A) (w : World) → view (f a w).1.store ≡ view w.store)
      → view (continue_with p f).1.store ≡ v
  continue_with-Keeps (ok a, w) f h k = k a w ∙ h
  continue_with-Keeps (err e, w) f h k = h

  pub >>=-Keeps :
      {A B : Type 0} (m : M A) (f : A → M B) → Keeps m → ((a : A) → Keeps (f a)) → Keeps (m >>= f)
  >>=-Keeps m f h k = record {
    kept = λ w. continue_with-Keeps (m w) f (h.kept w) (λ a. (k a).kept);
  }

  -- What does not touch the store, and what looks at an error.
  pub pure-Keeps : {A : Type 0} (a : A) → Keeps (pure a)
  pure-Keeps a = record { kept = λ w. refl }

  pub throw-Keeps : {A : Type 0} (e : Error) → Keeps (throw {A = A} e)
  throw-Keeps e = record { kept = λ w. refl }

  pub look-Keeps : {A : Type 0} (m : M A) → Keeps m → Keeps (look m)
  look-Keeps m h = record { kept = h.kept }

  may_fail-Keeps : {A : Type 0} (e : Error) (m : M A) → Keeps m → Keeps (may_fail e m)
  unfolding may_fail
  may_fail-Keeps e m h = record { kept = λ w. faulty w.faults w }
    where
      faulty : (fs : List Bool) (w : World) → view (unless_fault fs e m w).1.store ≡ view w.store
      faulty [] w = h.kept w
      faulty (true ∷ fs) w = refl
      faulty (false ∷ fs) w = h.kept (record w { faults = fs })

  pub read-Keeps : {A : Type 0} (f : MemoryStore → Result A) → Keeps (read f)
  unfolding read
  read-Keeps f = may_fail-Keeps _ _ (record { kept = λ w. refl })

  -- The operation on the store keeps the part, where it succeeds.
  abbrev pub KeepsResult : MemoryStore → Result MemoryStore → Type 0
  KeepsResult s (ok s') = view s' ≡ view s
  KeepsResult s (err e) = Unit {0}

  abbrev pub KeepsPair : {A : Type 0} → MemoryStore → Result (A × MemoryStore) → Type 0
  KeepsPair s (ok (a, s')) = view s' ≡ view s
  KeepsPair s (err e) = Unit {0}

  store_result-Keeps :
      (w : World) (r : Result MemoryStore)
      → KeepsResult w.store r
      → view (store_result w r).1.store ≡ view w.store
  store_result-Keeps w (ok s) h = h
  store_result-Keeps w (err e) h = refl

  store_pair-Keeps :
      {A : Type 0} (w : World) (r : Result (A × MemoryStore))
      → KeepsPair w.store r
      → view (store_pair w r).1.store ≡ view w.store
  store_pair-Keeps w (ok (a, s)) h = h
  store_pair-Keeps w (err e) h = refl

  pub write-Keeps :
      (f : MemoryStore → Result MemoryStore)
      → ((s : MemoryStore) → KeepsResult s (f s))
      → Keeps (write f)
  unfolding write
  write-Keeps f h =
      may_fail-Keeps _ _ (record { kept = λ w. store_result-Keeps w (f w.store) (h w.store) })

  pub update-Keeps :
      {A : Type 0} (f : MemoryStore → Result (A × MemoryStore))
      → ((s : MemoryStore) → KeepsPair s (f s))
      → Keeps (update f)
  unfolding update
  update-Keeps f h =
      may_fail-Keeps _ _ (record { kept = λ w. store_pair-Keeps w (f w.store) (h w.store) })

  pub if-Keeps :
      {A : Type 0} (b : Bool) (m n : M A) → Keeps m → Keeps n → Keeps (if b then m else n)
  if-Keeps true m n h k = h
  if-Keeps false m n h k = k
