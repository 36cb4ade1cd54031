-- ===== src/Base/Tally.antt =====
-- How many rows of a table a test accepts, and tables in which each key stands once.
use viro_coolify.Base.{
  ℕ, ◌+◌, String, Bool, true, false, List, [], ◌∷◌, none, some, ◌≡◌, refl, ◌∙◌, inl, inr, str_eq,
  arith, eq_iff, Bool-cases,
}
use viro_coolify.Base.Table.{lookup, insert, erase, contains, values, contains-insert}

abbrev pub one_if : Bool → ℕ
one_if true = 1
one_if false = 0

module _ {V : Type 0} where
  abbrev pub tally : (V → Bool) → List V → ℕ
  tally p [] = 0
  tally p (v ∷ vs) = one_if (p v) + tally p vs

  abbrev pub Once : List (String × V) → Type 0
  Once [] = Unit {0}
  Once ((k, v) ∷ m) = (contains k m ≡ false) × Once m

  module _ (p : V → Bool) where
    -- A write over a value counts the new one for the old one.
    pub tally-insert :
        (k : String) (v w : V) (m : List (String × V))
        → lookup k m ≡ some v
        → tally p (values (insert k w m)) + one_if (p v) ≡ tally p (values m) + one_if (p w)
    unfolding lookup insert values
    tally-insert k v w [] h = ground arith
    tally-insert k v w ((j, u) ∷ m) h = elim (Bool-cases (str_eq j k)) [
      | inl e ↦ rw e (ground (arith, h, e))
      | inr e ↦ rw e (ground (arith, h, e, tally-insert k v w m))
    ]

    pub tally-insert_new :
        (k : String) (w : V) (m : List (String × V))
        → contains k m ≡ false
        → tally p (values (insert k w m)) ≡ tally p (values m) + one_if (p w)
    unfolding contains insert values
    tally-insert_new k w [] h = omega arith
    tally-insert_new k w ((j, u) ∷ m) h = elim (Bool-cases (str_eq j k)) [
      | inl e ↦ ground (arith, h, e)
      | inr e ↦ rw e (ground (arith, h, e, tally-insert_new k w m))
    ]

    tally-erase_none :
        (k : String) (m : List (String × V))
        → contains k m ≡ false
        → tally p (values (erase k m)) ≡ tally p (values m)
    unfolding contains erase values
    tally-erase_none k [] h = refl
    tally-erase_none k ((j, u) ∷ m) h = elim (Bool-cases (str_eq j k)) [
      | inl e ↦ ground (arith, h, e)
      | inr e ↦ rw e (ground (arith, h, e, tally-erase_none k m))
    ]

    -- Where the key stands once, to delete it takes its value away.
    pub tally-erase :
        (k : String) (v : V) (m : List (String × V))
        → Once m
        → lookup k m ≡ some v
        → tally p (values (erase k m)) + one_if (p v) ≡ tally p (values m)
    unfolding lookup erase values
    tally-erase k v [] o h = ground arith
    tally-erase k v ((j, u) ∷ m) (a, o) h = elim (Bool-cases (str_eq j k)) [
      | inl e ↦ rw e (ground (arith, h, e, a, eq_iff j k, tally-erase_none k m))
      | inr e ↦ rw e (ground (arith, h, e, tally-erase k v m o))
    ]

  pub insert-Once : (k : String) (w : V) (m : List (String × V)) → Once m → Once (insert k w m)
  unfolding insert contains
  insert-Once k w [] o = (refl, tt)
  insert-Once k w ((j, u) ∷ m) (a, o) = elim (Bool-cases (str_eq j k)) [
    | inl e ↦ rw e (ground (arith, a, e, eq_iff j k), o)
    | inr e ↦ rw e (
      contains-insert k j w m ∙ ground (arith, a, e, eq_iff k j, eq_iff j k),
      insert-Once k w m o,
    )
  ]

  contains-erase :
      (k j : String) (m : List (String × V)) → contains j m ≡ false → contains j (erase k m) ≡ false
  unfolding erase contains
  contains-erase k j [] h = refl
  contains-erase k j ((i, u) ∷ m) h = elim (Bool-cases (str_eq i k)) [
    | inl e ↦ rw e (ground (arith, h, contains-erase k j m))
    | inr e ↦ rw e (ground (arith, h, contains-erase k j m))
  ]

  pub erase-Once : (k : String) (m : List (String × V)) → Once m → Once (erase k m)
  unfolding erase
  erase-Once k [] o = o
  erase-Once k ((j, u) ∷ m) (a, o) = elim (Bool-cases (str_eq j k)) [
    | inl e ↦ rw e (erase-Once k m o)
    | inr e ↦ rw e (contains-erase k j m a, erase-Once k m o)
  ]

  pub contains-none :
      (k : String) (m : List (String × V)) → lookup k m ≡ none → contains k m ≡ false
  unfolding lookup contains
  contains-none k [] h = refl
  contains-none k ((j, u) ∷ m) h = ground (arith, contains-none k m)
