-- ===== src/Httpx/Pagination.antt =====
-- internal/httpx/pagination.go: the page that a request asks for, and the block that describes the
-- page returned. A query value is a text, "" where it is absent, which `atoi`, for strconv.Atoi, reads.
pub mod Walk
use viro_coolify.Base.{String, Bool, Option, none, some, Result, ok, err, str_eq, if◌then◌else◌}
use viro_coolify.Base.Int.{ℤ, pos, ltb_ℤ, leb_ℤ, ◌+64◌}
use viro_coolify.Store.Page.{Page, normalize}

module _ (atoi : String → Result ℤ) where
  unfoldable pub query_limit : String → ℤ
  query_limit v = if str_eq v "" then pos 0 else elim (atoi v) [ ok n ↦ n | err e ↦ pos 0 ]

  unfoldable pub query_offset : String → ℤ
  query_offset v =
      if str_eq v ""
      then pos 0
      else elim (atoi v) [ ok n ↦ if ltb_ℤ (pos 0) n then n else pos 0 | err e ↦ pos 0 ]

  -- `parsePage`, on the values of `limit` and of `offset`.
  unfoldable pub parse_page : String → String → Page
  unfolding query_limit query_offset normalize
  parse_page limit offset =
      normalize (record { limit = query_limit limit; offset = query_offset offset })

-- The block as a record, its optional keys as options.
pub record PageMeta : Type 0 where
  pub limit : ℤ
  pub offset : ℤ
  pub has_more : Bool
  pub next_offset : Option ℤ
  pub total : Option ℤ

unfoldable pub page_meta : Page → ℤ → ℤ → PageMeta
page_meta p count total = record {
  limit = p.limit;
  offset = p.offset;
  has_more = has_more;
  next_offset = if has_more then some (p.offset +64 count) else none;
  total = if known then some total else none;
}
  where
    known : Bool
    known = leb_ℤ (pos 0) total

    has_more : Bool
    has_more = if known then ltb_ℤ (p.offset +64 count) total else leb_ℤ p.limit count
