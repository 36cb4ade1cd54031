-- ===== src/Store/Session/Outcomes.antt =====
-- Rules for what a successful service call leaves behind, whatever calls fail: a precondition on the
-- store before, and a postcondition on the value and the store after.
use viro_coolify.Base.{
  Bool, true, false, List, [], ◌∷◌, Error, Result, ok, err, ◌≡◌, refl, ap, is_not_found, inl, inr,
  Bool-cases, arith, if◌then◌else◌,
}
use mathlib.Core.Path.{subst}
use viro_coolify.Store.State.{MemoryStore}
use viro_coolify.Store.Session.{
  M, World, pure, throw, continue_with, ◌>>=◌, look, unless_fault, may_fail, read, write, update,
  store_result, store_pair, renamed, on_not_found, on_error, or_fail, lift, with_tx,
}
use viro_coolify.Store.Session.Reads.{Leaves}

pub ok_injective : {A : Type 0} {a b : A} → Result.ok a ≡ ok b → a ≡ b
ok_injective {A} {a} {b} q = ap (λ r. elim r [ ok x ↦ x | err _ ↦ a ]) q

-- The value and the store of a success.
abbrev pub Yields : {A : Type 0} → (A → MemoryStore → Type 0) → Result A × World → Type 0
Yields P (ok a, w) = P a w.store
Yields P (err e, w) = Unit {0}

abbrev pub LeavesPair :
    {A : Type 0} → (A → MemoryStore → Type 0) → Result (A × MemoryStore) → Type 0
LeavesPair P (ok (a, t)) = P a t
LeavesPair P (err e) = Unit {0}

pub record Ends {A : Type 0} (I : MemoryStore → Type 0) (m : M A) (P : A → MemoryStore → Type 0)
    : Type 0 where
  pub ends : (w : World) → I w.store → Yields P (m w)

module _ {A : Type 0} (I : MemoryStore → Type 0) (P : A → MemoryStore → Type 0) where
  pub pure-Ends : (a : A) → ((s : MemoryStore) → I s → P a s) → Ends I (pure a) P
  pure-Ends a h = record { ends = λ w i. h w.store i }

  pub throw-Ends : (e : Error) → Ends I (throw e) P
  throw-Ends e = record { ends = λ w i. tt }

  pub lift-Ends :
      (r : Result A) → ((a : A) (s : MemoryStore) → r ≡ ok a → I s → P a s) → Ends I (lift r) P
  lift-Ends (ok a) h = record { ends = λ w i. h a w.store refl i }
  lift-Ends (err e) h = record { ends = λ w i. tt }

  pub if-Ends :
      (b : Bool) (m n : M A)
      → (b ≡ true → Ends I m P)
      → (b ≡ false → Ends I n P)
      → Ends I (if b then m else n) P
  if-Ends true m n h k = h refl
  if-Ends false m n h k = k refl

  pub stronger-Ends :
      (J : MemoryStore → Type 0) (m : M A)
      → Ends J m P
      → ((s : MemoryStore) → I s → J s)
      → Ends I m P
  stronger-Ends J m e h = record { ends = λ w i. e.ends w (h w.store i) }

  pub weaker-Ends :
      (Q : A → MemoryStore → Type 0) (m : M A)
      → Ends I m Q
      → ((a : A) (s : MemoryStore) → Q a s → P a s)
      → Ends I m P
  weaker-Ends Q m e h = record { ends = λ w i. weaker-Yields (m w) (e.ends w i) }
    where
      weaker-Yields : (p : Result A × World) → Yields Q p → Yields P p
      weaker-Yields (ok a, w) y = h a w.store y
      weaker-Yields (err x, w) y = tt

  -- A fact that does not speak of the store moves out of the precondition.
  pub fact-Ends : (G : Type 0) (m : M A) → (G → Ends I m P) → Ends (λ s. I s × G) m P
  fact-Ends G m h = record { ends = λ w i. (h i.1).ends w i.0 }

  pub Ends-ok :
      (m : M A) (w : World) (a : A) → Ends I m P → I w.store → (m w).0 ≡ ok a → P a (m w).1.store
  Ends-ok m w a e i h = success (m w) (e.ends w i) h
    where
      success : (p : Result A × World) → Yields P p → p.0 ≡ ok a → P a p.1.store
      success (ok b, v) y q = subst (λ b. P b v.store) (ok_injective q) y
      success (err x, v) y q = ground (arith, q)

  pub may_fail-Ends : (e : Error) (m : M A) → Ends I m P → Ends I (may_fail e m) P
  unfolding may_fail
  may_fail-Ends e m h = record { ends = λ w. faulty w.faults w }
    where
      faulty : (fs : List Bool) (w : World) → I w.store → Yields P (unless_fault fs e m w)
      faulty [] w i = h.ends w i
      faulty (true ∷ fs) w i = tt
      faulty (false ∷ fs) w i = h.ends (record w { faults = fs }) i

  pub with_tx-Ends : (m : M A) → Ends I m P → Ends I (with_tx m) P
  unfolding with_tx
  with_tx-Ends m h = may_fail-Ends Error.canceled m h

  pair-Yields : (r : Result A) (w : World) → ((a : A) → r ≡ ok a → P a w.store) → Yields P (r, w)
  pair-Yields (ok a) w h = h a refl
  pair-Yields (err e) w h = tt

  pub read-Ends :
      (f : MemoryStore → Result A)
      → ((a : A) (s : MemoryStore) → I s → f s ≡ ok a → P a s)
      → Ends I (read f) P
  unfolding read
  read-Ends f h =
      may_fail-Ends Error.transient _
        (record { ends = λ w i. pair-Yields (f w.store) w (λ a q. h a w.store i q) })

  store_pair-Yields :
      (w : World) (r : Result (A × MemoryStore)) → LeavesPair P r → Yields P (store_pair w r)
  store_pair-Yields w (ok (a, t)) h = h
  store_pair-Yields w (err e) h = tt

  pub update-Ends :
      (f : MemoryStore → Result (A × MemoryStore))
      → ((s : MemoryStore) → I s → LeavesPair P (f s))
      → Ends I (update f) P
  unfolding update
  update-Ends f h =
      may_fail-Ends Error.transient _
        (record { ends = λ w i. store_pair-Yields w (f w.store) (h w.store i) })

  renamed-Yields :
      (e : Error) (r : Result A) (w : World) → Yields P (r, w) → Yields P (renamed e r, w)
  renamed-Yields e (ok a) w y = y
  renamed-Yields e (err x) w y = elim (Bool-cases (is_not_found x)) [
    | inl q ↦ rw q tt
    | inr q ↦ rw q tt
  ]

  pub on_not_found-Ends : (e : Error) (m : M A) → Ends I m P → Ends I (on_not_found e m) P
  on_not_found-Ends e m h = record { ends = λ w i. renamed-Yields e (m w).0 (m w).1 (h.ends w i) }

  on_error-Yields :
      (e : Error) (r : Result A) (w : World) → Yields P (r, w) → Yields P (on_error e r, w)
  on_error-Yields e (ok a) w y = y
  on_error-Yields e (err x) w y = tt

  pub or_fail-Ends : (e : Error) (m : M A) → Ends I m P → Ends I (or_fail e m) P
  or_fail-Ends e m h = record { ends = λ w i. on_error-Yields e (m w).0 (m w).1 (h.ends w i) }

module _ (I : MemoryStore → Type 0) (P : Unit {0} → MemoryStore → Type 0) where
  store_result-Yields :
      (w : World) (r : Result MemoryStore) → Leaves (P tt) r → Yields P (store_result w r)
  store_result-Yields w (ok t) h = h
  store_result-Yields w (err e) h = tt

  pub write-Ends :
      (f : MemoryStore → Result MemoryStore)
      → ((s : MemoryStore) → I s → Leaves (P tt) (f s))
      → Ends I (write f) P
  unfolding write
  write-Ends f h =
      may_fail-Ends I P Error.transient _
        (record { ends = λ w i. store_result-Yields w (f w.store) (h w.store i) })

-- Nothing is claimed of a call that only comes before an error.
any-Yields : {A : Type 0} (p : Result A × World) → Yields (λ _ _. Unit {0}) p
any-Yields (ok a, w) = tt
any-Yields (err e, w) = tt

pub any-Ends : {A : Type 0} (I : MemoryStore → Type 0) (m : M A) → Ends I m (λ _ _. Unit {0})
any-Ends I m = record { ends = λ w i. any-Yields (m w) }

module _ {A B : Type 0} (I : MemoryStore → Type 0) (Q : A → MemoryStore → Type 0)
    (P : B → MemoryStore → Type 0) where
  continue_with-Yields :
      (p : Result A × World) (f : A → M B)
      → Yields Q p
      → ((a : A) → Ends (Q a) (f a) P)
      → Yields P (continue_with p f)
  continue_with-Yields (ok a, w) f y k = (k a).ends w y
  continue_with-Yields (err e, w) f y k = tt

  pub >>=-Ends :
      (m : M A) (f : A → M B) → Ends I m Q → ((a : A) → Ends (Q a) (f a) P) → Ends I (m >>= f) P
  >>=-Ends m f h k = record { ends = λ w i. continue_with-Yields (m w) f (h.ends w i) k }

-- What looks at the outcome of one call of the store, an error of the call included.
module _ {A : Type 0} (I : MemoryStore → Type 0) (P : Result A → MemoryStore → Type 0) where
  pub look_read-Ends :
      (f : MemoryStore → Result A)
      → ((s : MemoryStore) → I s → P (f s) s)
      → ((s : MemoryStore) → I s → P (err Error.transient) s)
      → Ends I (look (read f)) P
  unfolding read may_fail
  look_read-Ends f h k = record { ends = λ w. faulty w.faults w }
    where
      faulty :
          (fs : List Bool) (w : World)
          → I w.store
          → Yields P (look (unless_fault fs Error.transient (λ w. (f w.store, w))) w)
      faulty [] w i = h w.store i
      faulty (true ∷ fs) w i = k w.store i
      faulty (false ∷ fs) w i = h w.store i

module _ (I : MemoryStore → Type 0) (P : Result (Unit {0}) → MemoryStore → Type 0) where
  abbrev pub Seen : MemoryStore → Result MemoryStore → Type 0
  Seen s (ok t) = P (ok tt) t
  Seen s (err e) = P (err e) s

  look_result-Yields :
      (w : World) (r : Result MemoryStore)
      → Seen w.store r
      → Yields P (look (λ w. store_result w r) w)
  look_result-Yields w (ok t) h = h
  look_result-Yields w (err e) h = h

  pub look_write-Ends :
      (f : MemoryStore → Result MemoryStore)
      → ((s : MemoryStore) → I s → Seen s (f s))
      → ((s : MemoryStore) → I s → P (err Error.transient) s)
      → Ends I (look (write f)) P
  unfolding write may_fail
  look_write-Ends f h k = record { ends = λ w. faulty w.faults w }
    where
      faulty :
          (fs : List Bool) (w : World)
          → I w.store
          → Yields P (look (unless_fault fs Error.transient (λ w. store_result w (f w.store))) w)
      faulty [] w i = look_result-Yields w (f w.store) (h w.store i)
      faulty (true ∷ fs) w i = k w.store i
      faulty (false ∷ fs) w i =
          look_result-Yields (record w { faults = fs }) (f w.store) (h w.store i)
