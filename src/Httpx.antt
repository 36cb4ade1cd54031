-- ===== src/Httpx.antt =====
-- internal/httpx: the parts with a logic of their own, the rate limiter and the pages of a list.
pub mod RateLimit
pub mod Pagination
