-- ===== src/Httpx/Pagination/Walk.antt =====
-- The pages that a client reads when it follows `nextOffset`.
use Prim.Native.Nat.{min}
use viro_coolify.Base.{
  ℕ, zero, suc, ◌+◌, ◌-◌, ◌<◌, ◌≤◌, String, true, List, [], ◌∷◌, ◌++◌, none, some, Result, ok, err,
  ◌≡◌, refl, ◌∙◌, sym, ap, arith, length, take, drop, length-take, length-drop, take-append-drop,
  Bool-cases, leb, leb→le, inl, inr,
}
use viro_coolify.Base.Int.{ℤ, pos, negsuc, leb_ℤ, ltb_ℤ, int64_half, +64_pos}
use viro_coolify.Store.Page.{Page, normalize, bounded, slice, page_of}
use viro_coolify.Httpx.Pagination.{page_meta, parse_page}

-- Whatever the query says, the page asks for one to two hundred rows and starts at the first row or
-- after it.
pub parse_page-IsBounded :
    (atoi : String → Result ℤ) (limit offset : String)
    → let p = parse_page atoi limit offset in
      (ltb_ℤ (pos 0) p.limit ≡ true)
      × (leb_ℤ p.limit (pos 200) ≡ true)
      × (leb_ℤ (pos 0) p.offset ≡ true)
unfolding parse_page normalize
parse_page-IsBounded atoi limit offset = ground arith

page_meta_full :
    (limit offset : ℕ)
    → offset + limit < int64_half
    → (page_meta
        (record { limit = pos limit; offset = pos offset })
        (pos limit)
        (negsuc 0)).next_offset
      ≡ some (pos (offset + limit))
unfolding page_meta
page_meta_full limit offset b = ground (arith, +64_pos offset limit)

page_meta_short :
    (limit offset count : ℕ)
    → count < limit
    → (page_meta
        (record { limit = pos limit; offset = pos offset })
        (pos count)
        (negsuc 0)).next_offset
      ≡ none
unfolding page_meta
page_meta_short limit offset count b = ground arith

next : (m n : ℕ) → suc (m + n) ≡ suc m + n
next m n = omega arith

module _ {A : Type 0} where
  take_all : (n : ℕ) (xs : List A) → length xs ≤ n → take n xs ≡ xs
  take_all zero [] h = refl
  take_all (suc n) [] h = refl
  take_all zero (x ∷ xs) h = ground arith
  take_all (suc n) (x ∷ xs) h = rw (take_all n xs (omega arith))

  drop_all : (n : ℕ) (xs : List A) → length xs ≤ n → drop n xs ≡ []
  drop_all zero [] h = refl
  drop_all (suc n) [] h = refl
  drop_all zero (x ∷ xs) h = ground arith
  drop_all (suc n) (x ∷ xs) h = drop_all n xs (omega arith)

  slice_rows :
      (xs : List A) (off end : ℕ)
      → off ≤ end
      → end ≤ length xs
      → slice xs (pos off) (pos end) ≡ ok (take (end - off) (drop off xs))
  unfolding slice
  slice_rows xs off end a b = ground arith

  -- A page of a list is the rows that it names, where the list and the page fit an int.
  pub page_of_rows :
      (xs : List A) (limit offset : ℕ)
      → 0 < limit
      → length xs + limit < int64_half
      → page_of xs (record { limit = pos limit; offset = pos offset })
        ≡ ok (take limit (drop offset xs))
  unfolding page_of bounded
  page_of_rows xs limit offset l b = ground (
    arith,
    +64_pos offset limit,
    take_all limit (drop offset xs),
    drop_all offset xs,
    length-drop offset xs,
    slice_rows xs offset (offset + limit),
    slice_rows xs offset (length xs),
    take_all (length xs - offset) (drop offset xs),
  )

  -- The rows of one page after another, where the client does not know the total and goes on from
  -- `nextOffset` while there is one.
  abbrev pub walk : ℕ → List A → Page → List A
  walk zero xs p = []
  walk (suc fuel) xs p = elim (page_of xs p) [
    | err e ↦ []
    | ok items ↦ items ++ (elim (page_meta p (pos (length items)) (negsuc 0)).next_offset [
      | none ↦ []
      | some offset ↦ walk fuel xs (record p { offset = offset })
    ])
  ]

  drop-drop : (n m : ℕ) (xs : List A) → drop n (drop m xs) ≡ drop (m + n) xs
  drop-drop n zero xs = ap (λ (i : ℕ). drop i xs) (omega arith)
  drop-drop n (suc m) [] = drop_all n [] (omega arith) ∙ sym (drop_all (suc m + n) [] (omega arith))
  drop-drop n (suc m) (x ∷ xs) = drop-drop n m xs ∙ ap (λ (i : ℕ). drop i (x ∷ xs)) (next m n)

  append_nil : (ys : List A) → ys ++ [] ≡ ys
  append_nil [] = refl
  append_nil (y ∷ ys) = ap (λ zs. y ∷ zs) (append_nil ys)

  walk_from :
      (fuel limit offset : ℕ) (xs : List A)
      → 0 < limit
      → length xs + limit < int64_half
      → length xs < fuel + offset
      → walk fuel xs (record { limit = pos limit; offset = pos offset }) ≡ drop offset xs
  walk_from zero limit offset xs l b f = sym (drop_all offset xs (omega arith))
  walk_from (suc fuel) limit offset xs l b f =
      elim (Bool-cases (leb (limit + offset) (length xs))) [
        | inl h ↦
            full (leb→le (limit + offset) (length xs) h)
              (λ f'. walk_from fuel limit (offset + limit) xs l b f')
        | inr h ↦ short (ground (arith, h))
      ]
    where
      items : List A
      items = take limit (drop offset xs)

      size : length items ≡ min limit (length xs - offset)
      size = length-take limit (drop offset xs) ∙ ap (min limit) (length-drop offset xs)

      whole : limit + offset ≤ length xs → length items ≡ limit
      whole h = omega (arith, size)

      full :
          limit + offset ≤ length xs
          → (length xs < fuel + (offset + limit)
              → walk fuel xs (record { limit = pos limit; offset = pos (offset + limit) })
                ≡ drop (offset + limit) xs)
          → walk (suc fuel) xs (record { limit = pos limit; offset = pos offset }) ≡ drop offset xs
      full h ih =
          rw
            (
              walk,
              page_of_rows xs limit offset l b,
              whole h,
              page_meta_full limit offset (omega arith),
              ih (omega arith),
              sym (drop-drop limit offset xs),
            )
            (take-append-drop limit (drop offset xs))

      short :
          length xs < limit + offset
          → walk (suc fuel) xs (record { limit = pos limit; offset = pos offset }) ≡ drop offset xs
      short h =
          rw
            (
              walk,
              page_of_rows xs limit offset l b,
              page_meta_short limit offset (length items) (omega (arith, size)),
              take_all limit (drop offset xs) (omega (arith, length-drop offset xs)),
            )
            (append_nil (drop offset xs))

  -- A client that starts at the first row and follows `nextOffset` reads every row of the list, each
  -- once and in order, and stops: for any page size from one on, where the list and a page fit an int.
  pub walk_all :
      (limit : ℕ) (xs : List A)
      → 0 < limit
      → length xs + limit < int64_half
      → walk (suc (length xs)) xs (record { limit = pos limit; offset = pos 0 }) ≡ xs
  walk_all limit xs l b = walk_from (suc (length xs)) limit 0 xs l b (omega arith)
