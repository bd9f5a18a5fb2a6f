-- ===== src/Exporters/Timing.antt =====
-- The conversion of times to microseconds.
use gc_scope.Base.{ℕ, ◌+◌, ◌*◌, ◌≤◌, ◌<◌, arith}
use gc_scope.Base.Int.{ℤ, pos, negsuc, pos_part, neg_part, ◌≤ℤ◌}
use gc_scope.Exporters.{ts_us}

-- The whole thousands of a count, the rest dropped.
abbrev pub IsThousands : ℕ → ℕ → Type 0
IsThousands q n = (1000 * q ≤ n) × (n < 1000 * q + 1000)

-- Microseconds are the whole thousands of nanoseconds, after zero and before it.
abbrev pub IsTruncated : ℤ → ℤ → Type 0
IsTruncated us ns =
    IsThousands (pos_part us) (pos_part ns) × IsThousands (neg_part us) (neg_part ns)

ts_us-IsTruncated : (ns : ℤ) → IsTruncated (ts_us ns) ns
unfolding ts_us
ts_us-IsTruncated (pos n) = ground arith
ts_us-IsTruncated (negsuc n) = ground arith

ts_us_mono : (a b : ℤ) → a ≤ℤ b → ts_us a ≤ℤ ts_us b
unfolding ts_us
ts_us_mono (pos a) (pos b) h = omega (arith, h)
ts_us_mono (pos a) (negsuc b) h = absurd (omega (arith, h))
ts_us_mono (negsuc a) (pos b) h = ground (arith, h)
ts_us_mono (negsuc a) (negsuc b) h = ground (arith, h)

-- A time becomes whole microseconds by dropping what is less than one, after zero and before it, so
-- toward zero. So a time that is not later than another is not later in microseconds, and a pair of
-- a begin and an end does not invert.
pub ts_us_truncates :
    (a b : ℤ) → a ≤ℤ b → IsTruncated (ts_us a) a × IsTruncated (ts_us b) b × (ts_us a ≤ℤ ts_us b)
ts_us_truncates a b h = (ts_us-IsTruncated a, ts_us-IsTruncated b, ts_us_mono a b h)
