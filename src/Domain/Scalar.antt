-- ===== src/Domain/Scalar.antt =====
-- The scalar types of internal/domain/domain.go.
use Prim.Native.Nat.{ℕ}

-- `time.Time` in UTC, as nanoseconds since Go's zero time (1 January of the year 1). The zero value
-- is 0, so `IsZero` is a comparison with 0; instants before the zero time have no counterpart.
abbrev pub Time : Type 0
Time = ℕ

-- `float64`, by its 64 bits. The records only carry these; the arithmetic on them is a parameter.
abbrev pub Float64 : Type 0
Float64 = ℕ
