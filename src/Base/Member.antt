-- ===== src/Base/Member.antt =====
-- What the operations on tables and lists keep of their members.
use Prim.Native.String.{String}
use text.Mathlib.Text.{◌==◌}
use mathlib.Core.Path.{◌≡◌, refl, sym, subst}
use mathlib.Core.Logic.{◌⊎◌, inl, inr}
use mathlib.Core.Bool.{Bool, true, false}
use mathlib.Core.Option.{none, some}
use mathlib.Core.List.{List, [], ◌∷◌, Memᴰ}
use native.Mathlib.Omega.{arith}
use viro_coolify.Base.Tests.{Bool-cases}
use viro_coolify.Base.Table.{Table, lookup, insert, erase, values, find, select}
use viro_coolify.Base.Sort.{insert_sorted, sort_by}

module _ {V : Type 0} where
  -- Every value of a list has a property.
  abbrev pub All : (V → Type 0) → List V → Type 0
  All P [] = Unit {0}
  All P (v ∷ vs) = P v × All P vs

  pub All_at : (P : V → Type 0) {v : V} (vs : List V) → All P vs → Memᴰ v vs → P v
  All_at P [] a m = elim m [ ]
  All_at P (w ∷ vs) (p, ps) (Memᴰ.head e) = subst P (sym e) p
  All_at P (w ∷ vs) (p, ps) (Memᴰ.tail m) = All_at P vs ps m

  pub All-select : (P : V → Type 0) (p : V → Bool) (vs : List V) → All P vs → All P (select p vs)
  unfolding select
  All-select P p [] a = a
  All-select P p (v ∷ vs) (h, a) = elim (Bool-cases (p v)) [
    | inl e ↦ rw e (h, All-select P p vs a)
    | inr e ↦ rw e (All-select P p vs a)
  ]

  module _ (less : V → V → Bool) where
    pub All-insert_sorted :
        (P : V → Type 0) (v : V) (vs : List V) → P v → All P vs → All P (insert_sorted less v vs)
    unfolding insert_sorted
    All-insert_sorted P v [] h a = (h, a)
    All-insert_sorted P v (w ∷ vs) h (k, a) = elim (Bool-cases (less w v)) [
      | inl e ↦ rw e (k, All-insert_sorted P v vs h a)
      | inr e ↦ rw e (h, (k, a))
    ]

    pub All-sort_by : (P : V → Type 0) (vs : List V) → All P vs → All P (sort_by less vs)
    unfolding sort_by
    All-sort_by P [] a = a
    All-sort_by P (v ∷ vs) (h, a) = All-insert_sorted P v (sort_by less vs) h (All-sort_by P vs a)

    head-insert_sorted : (v : V) (vs : List V) → Memᴰ v (insert_sorted less v vs)
    unfolding insert_sorted
    head-insert_sorted v [] = Memᴰ.head refl
    head-insert_sorted v (w ∷ vs) = elim (Bool-cases (less w v)) [
      | inl e ↦ rw e (Memᴰ.tail (head-insert_sorted v vs))
      | inr e ↦ rw e (Memᴰ.head refl)
    ]

    tail-insert_sorted :
        {u : V} (v : V) (vs : List V) → Memᴰ u vs → Memᴰ u (insert_sorted less v vs)
    unfolding insert_sorted
    tail-insert_sorted v [] m = elim m [ ]
    tail-insert_sorted v (w ∷ vs) (Memᴰ.head q) = elim (Bool-cases (less w v)) [
      | inl e ↦ rw e (Memᴰ.head q)
      | inr e ↦ rw e (Memᴰ.tail (Memᴰ.head q))
    ]
    tail-insert_sorted v (w ∷ vs) (Memᴰ.tail m) = elim (Bool-cases (less w v)) [
      | inl e ↦ rw e (Memᴰ.tail (tail-insert_sorted v vs m))
      | inr e ↦ rw e (Memᴰ.tail (Memᴰ.tail m))
    ]

    pub sort_by-keeps : {u : V} (vs : List V) → Memᴰ u vs → Memᴰ u (sort_by less vs)
    unfolding sort_by
    sort_by-keeps [] m = elim m [ ]
    sort_by-keeps {u} (v ∷ vs) (Memᴰ.head e) =
        subst (λ w. Memᴰ w (insert_sorted less v (sort_by less vs))) (sym e)
          (head-insert_sorted v (sort_by less vs))
    sort_by-keeps (v ∷ vs) (Memᴰ.tail m) =
        tail-insert_sorted v (sort_by less vs) (sort_by-keeps vs m)

  pub select-keeps :
      {u : V} (p : V → Bool) (vs : List V) → Memᴰ u vs → p u ≡ true → Memᴰ u (select p vs)
  unfolding select
  select-keeps p [] m h = elim m [ ]
  select-keeps p (v ∷ vs) (Memᴰ.head q) h = rw (subst (λ w. p w ≡ true) q h) (Memᴰ.head q)
  select-keeps p (v ∷ vs) (Memᴰ.tail m) h = elim (Bool-cases (p v)) [
    | inl e ↦ rw e (Memᴰ.tail (select-keeps p vs m h))
    | inr e ↦ rw e (select-keeps p vs m h)
  ]

  pub lookup-Mem :
      (k : String) (v : V) (m : List (String × V)) → lookup k m ≡ some v → Memᴰ v (values m)
  unfolding lookup values
  lookup-Mem k v [] h = absurd (none_ne h)
    where
      none_ne : ¬ (none ≡ some v)
      none_ne h = ground arith
  lookup-Mem k v ((j, w) ∷ m) h = elim (Bool-cases (j == k)) [
    | inl e ↦ Memᴰ.head (ground (arith, h, e))
    | inr e ↦ Memᴰ.tail (lookup-Mem k v m (ground (arith, h, e)))
  ]

  -- What `find` returns, and that it returns nothing only where nothing is accepted.
  pub find-some :
      (p : V → Bool) (vs : List V) (v : V) → find p vs ≡ some v → Memᴰ v vs × (p v ≡ true)
  unfolding find
  find-some p [] v h = absurd (none_ne h)
    where
      none_ne : ¬ (none ≡ some v)
      none_ne h = ground arith
  find-some p (w ∷ vs) v h = elim (Bool-cases (p w)) [
    | inl e ↦
        let q : w ≡ v = ground (arith, h, e) in (Memᴰ.head (sym q), subst (λ u. p u ≡ true) q e)
    | inr e ↦ let (m, q) = find-some p vs v (ground (arith, h, e)) in (Memᴰ.tail m, q)
  ]

  pub find-none : (p : V → Bool) (vs : List V) → find p vs ≡ none → All (λ v. p v ≡ false) vs
  unfolding find
  find-none p [] h = tt
  find-none p (w ∷ vs) h = elim (Bool-cases (p w)) [
    | inl e ↦ ground (arith, h, e)
    | inr e ↦ (e, find-none p vs (ground (arith, h, e)))
  ]

module _ {V : Type 0} where
  -- What a table holds after a write and after a deletion.
  pub values-insert :
      {u : V} (k : String) (v : V) (m : Table V)
      → Memᴰ u (values (insert k v m))
      → (u ≡ v) ⊎ Memᴰ u (values m)
  unfolding insert values
  values-insert k v [] (Memᴰ.head e) = inl e
  values-insert k v [] (Memᴰ.tail m) = inr m
  values-insert {u} k v ((j, w) ∷ m) q =
      let split : Memᴰ u (values (insert k v ((j, w) ∷ m))) → (u ≡ v) ⊎ Memᴰ u (w ∷ values m) =
        elim (Bool-cases (j == k)) [
          | inl e ↦ rw e replaced
          | inr e ↦ rw e (further (values-insert k v m))
        ] in
      split q
    where
      replaced : Memᴰ u (v ∷ values m) → (u ≡ v) ⊎ Memᴰ u (w ∷ values m)
      replaced (Memᴰ.head q) = inl q
      replaced (Memᴰ.tail q) = inr (Memᴰ.tail q)

      deeper : (u ≡ v) ⊎ Memᴰ u (values m) → (u ≡ v) ⊎ Memᴰ u (w ∷ values m)
      deeper (inl q) = inl q
      deeper (inr q) = inr (Memᴰ.tail q)

      further :
          (Memᴰ u (values (insert k v m)) → (u ≡ v) ⊎ Memᴰ u (values m))
          → Memᴰ u (w ∷ values (insert k v m))
          → (u ≡ v) ⊎ Memᴰ u (w ∷ values m)
      further h (Memᴰ.head q) = inr (Memᴰ.head q)
      further h (Memᴰ.tail q) = deeper (h q)

  pub values-erase :
      {u : V} (k : String) (m : Table V) → Memᴰ u (values (erase k m)) → Memᴰ u (values m)
  unfolding erase values
  values-erase k [] q = q
  values-erase {u} k ((j, w) ∷ m) q =
      let split : Memᴰ u (values (erase k ((j, w) ∷ m))) → Memᴰ u (w ∷ values m) =
        elim (Bool-cases (j == k)) [
          | inl e ↦ rw e (λ q. Memᴰ.tail (values-erase k m q))
          | inr e ↦ rw e (further (values-erase k m))
        ] in
      split q
    where
      further :
          (Memᴰ u (values (erase k m)) → Memᴰ u (values m))
          → Memᴰ u (w ∷ values (erase k m))
          → Memᴰ u (w ∷ values m)
      further h (Memᴰ.head q) = Memᴰ.head q
      further h (Memᴰ.tail q) = Memᴰ.tail (h q)
