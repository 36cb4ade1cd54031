-- ===== src/Store/Page.antt =====
-- internal/store/store.go and internal/store/memory.go: bounded pages of a list.
use viro_coolify.Base.{
  ◌-◌, Bool, List, [], Result, ok, err, panicked, if◌then◌else◌, length, take, drop,
}
use viro_coolify.Base.Int.{ℤ, pos, pos_part, ltb_ℤ, leb_ℤ, ◌+64◌}

pub record Page : Type 0 where
  pub limit : ℤ
  pub offset : ℤ

abbrev pub default_page_limit : ℤ
default_page_limit = pos 50

abbrev pub max_page_limit : ℤ
max_page_limit = pos 200

-- The zero `store.Page{}`, which reads everything.
abbrev pub all_rows : Page
all_rows = record { limit = pos 0; offset = pos 0 }

-- `Page.Normalize`
unfoldable pub normalize : Page → Page
normalize p = record { limit = capped; offset = if ltb_ℤ p.offset (pos 0) then pos 0 else p.offset }
  where
    positive : ℤ
    positive = if leb_ℤ p.limit (pos 0) then default_page_limit else p.limit

    capped : ℤ
    capped = if ltb_ℤ max_page_limit positive then max_page_limit else positive

-- `Page.Bounded`
unfoldable pub bounded : Page → Bool
bounded p = ltb_ℤ (pos 0) p.limit

-- `in[off:end]`: Go panics unless 0 ≤ off ≤ end ≤ len(in).
unfoldable pub slice {ℓ} : {A : Type ℓ} → List A → ℤ → ℤ → Result (List A)
slice xs off end =
    if ltb_ℤ off (pos 0)
    then err panicked
    else if ltb_ℤ end off
    then err panicked
    else if ltb_ℤ (pos (length xs)) end
    then err panicked
    else ok (take (pos_part end - pos_part off) (drop (pos_part off) xs))

-- `applyPage`
unfoldable pub page_of {ℓ} : {A : Type ℓ} → List A → Page → Result (List A)
unfolding bounded slice ◌+64◌
page_of xs p =
    if bounded p
    then if leb_ℤ (pos (length xs)) off
      then ok []
      else slice xs off (if ltb_ℤ (pos (length xs)) end then pos (length xs) else end)
    else ok xs
  where
    off : ℤ
    off = if ltb_ℤ p.offset (pos 0) then pos 0 else p.offset

    end : ℤ
    end = off +64 p.limit
