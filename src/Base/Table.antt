-- ===== src/Base/Table.antt =====
-- Go maps with text keys, as association lists. The order of a list stands for the order in which
-- one run ranges over the map; theorems hold for every list, so for every order.
use Prim.Native.String.{String}
use text.Mathlib.Text.{◌==◌}
use text.Mathlib.TextEquality.{eq_iff}
use mathlib.Core.Path.{◌≡◌, refl}
use mathlib.Core.Logic.{inl, inr}
use mathlib.Core.Bool.{Bool, true, false, ◌||◌}
use mathlib.Core.Option.{Option, none, some}
use mathlib.Core.List.{List, [], ◌∷◌}
use native.Mathlib.Omega.{arith}
use viro_coolify.Base.Tests.{if◌then◌else◌, Bool-cases}

abbrev pub Table {ℓ} : Type ℓ → Type ℓ
Table V = List (String × V)

-- A text that equals one of two different texts is not the other.
pub other_text : (k a b : String) → (a == b) ≡ false → (k == a) ≡ true → (k == b) ≡ false
other_text k a b h e = ground (arith, eq_iff k a, eq_iff k b, eq_iff a b)

module _ {ℓ} {V : Type ℓ} where
  -- `m[key]`, where the map has the key.
  unfoldable pub lookup : String → Table V → Option V
  lookup key [] = none
  lookup key ((other, val) ∷ rest) = if other == key then some val else lookup key rest

  -- `_, ok := m[key]`
  unfoldable pub contains : String → Table V → Bool
  contains key [] = false
  contains key ((other, val) ∷ rest) = other == key || contains key rest

  -- `delete(m, key)`
  unfoldable pub erase : String → Table V → Table V
  erase key [] = []
  erase key ((other, val) ∷ rest) =
      if other == key then erase key rest else (other, val) ∷ erase key rest

  -- `m[key] = val`: in the place of the key's value, or else at the end.
  unfoldable pub insert : String → V → Table V → Table V
  insert key val [] = (key, val) ∷ []
  insert key val ((other, old) ∷ rest) =
      if other == key then (key, val) ∷ rest else (other, old) ∷ insert key val rest

  -- The values, in the order of iteration.
  unfoldable pub values : List (String × V) → List V
  values [] = []
  values ((j, w) ∷ m) = w ∷ values m

  -- The first value, in the order of iteration, that a test accepts.
  unfoldable pub find : (V → Bool) → List V → Option V
  find p [] = none
  find p (v ∷ vs) = if p v then some v else find p vs

  -- The values that a test accepts, in the order of iteration.
  unfoldable pub select : (V → Bool) → List V → List V
  select p [] = []
  select p (v ∷ vs) = if p v then v ∷ select p vs else select p vs

  unfoldable pub any : (V → Bool) → List V → Bool
  any p [] = false
  any p (v ∷ vs) = p v || any p vs

  -- What a key reads after a write.
  pub lookup-insert :
      (written key : String) (val : V) (t : Table V)
      → lookup key (insert written val t) ≡ (if written == key then some val else lookup key t)
  unfolding lookup insert
  lookup-insert written key val [] = refl
  lookup-insert written key val ((other, old) ∷ rest) = ground (
    arith,
    lookup-insert written key val rest,
    eq_iff other key,
    eq_iff other written,
    eq_iff written key,
  )

  pub lookup-erase :
      (k j : String) (m : List (String × V))
      → lookup j (erase k m) ≡ (if k == j then none else lookup j m)
  unfolding lookup erase
  lookup-erase k j [] = ground arith
  lookup-erase k j ((i, w) ∷ m) =
      ground (arith, eq_iff k j, eq_iff i k, eq_iff i j, lookup-erase k j m)

  -- To write a value back where it was read changes nothing.
  pub insert_same :
      (k : String) (v : V) (m : List (String × V)) → lookup k m ≡ some v → insert k v m ≡ m
  unfolding lookup insert
  insert_same k v [] h = ground arith
  insert_same k v ((i, w) ∷ m) h = ground (arith, eq_iff i k, insert_same k v m)

  -- A second write to a key replaces the first.
  pub insert-insert :
      (k : String) (v w : V) (m : List (String × V)) → insert k w (insert k v m) ≡ insert k w m
  unfolding insert
  insert-insert k v w [] = ground (arith, eq_iff k k)
  insert-insert k v w ((i, u) ∷ m) = ground (arith, eq_iff i k, eq_iff k k, insert-insert k v w m)

  pub contains-lookup :
      (k : String) (m : List (String × V)) (v : V) → lookup k m ≡ some v → contains k m ≡ true
  unfolding lookup contains
  contains-lookup k [] v h = ground arith
  contains-lookup k ((i, w) ∷ m) v h = ground (arith, contains-lookup k m v)

  pub contains-insert :
      (k j : String) (v : V) (m : List (String × V))
      → contains j (insert k v m) ≡ (k == j || contains j m)
  unfolding contains insert
  contains-insert k j v [] = ground arith
  contains-insert k j v ((i, w) ∷ m) =
      ground (arith, eq_iff k j, eq_iff i k, eq_iff i j, contains-insert k j v m)

  -- What a key has, by whether the map has it.
  pub contains-some :
      (k : String) (m : List (String × V)) → contains k m ≡ true → (v : V) × (lookup k m ≡ some v)
  unfolding lookup contains
  contains-some k [] h = ground arith
  contains-some k ((i, w) ∷ m) h = elim (Bool-cases (i == k)) [
    | inl e ↦ (w, rw e refl)
    | inr e ↦ let (v, q) = contains-some k m (ground (arith, h, e)) in (v, rw e q)
  ]

  pub contains-none :
      (k : String) (m : List (String × V)) → contains k m ≡ false → lookup k m ≡ none
  unfolding lookup contains
  contains-none k [] h = refl
  contains-none k ((i, w) ∷ m) h = ground (arith, h, contains-none k m)
