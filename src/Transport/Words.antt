-- ===== src/Transport/Words.antt =====
-- `write_u64` and `read_u64`.
use happy_active_everywhere.Base.{ℕ, ◌^◌, ◌<◌, ◌++◌, ◌≡◌, ap, arith, ok}
use happy_active_everywhere.Storage.FileBytes.{Bytes}
use happy_active_everywhere.Transport.{write_u64, read_u64}

-- A 64-bit number is read back, and the rest of the stream is left.
pub read_u64-write_u64 :
    (n : ℕ) (rest : Bytes) → n < 2 ^ 64 → read_u64 (write_u64 n ++ rest) ≡ ok (n, rest)
unfolding read_u64 write_u64
read_u64-write_u64 n rest h = ap (λ (k : ℕ). ok (k, rest)) (omega arith)
