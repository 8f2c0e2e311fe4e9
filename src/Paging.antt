-- ===== src/Paging.antt =====
-- Pages of a list: src/common/utils/pagination.util.ts.
use arkride_backend.Common.{ℕ, ◌≤◌, leb, if◌then◌else◌, arith}

-- What `Number` reads in a query value, rounded down.
pub data QueryValue : Type 0 where
  absent not_finite below_zero : QueryValue
  finite : ℕ → QueryValue

abbrev pub default_page_limit : ℕ
default_page_limit = 50

abbrev pub max_page_limit : ℕ
max_page_limit = 200

unfoldable pub clamp_limit : QueryValue → (fallback max : ℕ) → ℕ
clamp_limit (finite n) fallback max = if leb 1 n then (if leb n max then n else max) else fallback
clamp_limit _ fallback max = fallback

unfoldable pub clamp_offset : QueryValue → ℕ
clamp_offset (finite n) = n
clamp_offset _ = 0

-- Where the default is at least one and at most what is allowed, so is every page, whatever is asked for.
clamp_limit-le :
    (raw : QueryValue) (fallback max : ℕ)
    → 1 ≤ fallback
    → fallback ≤ max
    → (1 ≤ clamp_limit raw fallback max) × (clamp_limit raw fallback max ≤ max)
unfolding clamp_limit
clamp_limit-le absent fallback max least most = (least, most)
clamp_limit-le not_finite fallback max least most = (least, most)
clamp_limit-le below_zero fallback max least most = (least, most)
clamp_limit-le (finite n) fallback max least most = (ground arith, ground arith)
