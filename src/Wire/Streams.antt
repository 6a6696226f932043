-- ===== src/Wire/Streams.antt =====
-- Reads of what was written to a stream.
use happy_active_everywhere.Base.{
  ℕ, ◌^◌, ◌<◌, ◌≤◌, [], ◌∷◌, ◌++◌, length, take, le→leb, length-append, ◌≡◌, refl, ap, subst, arith,
  ok,
}
use happy_active_everywhere.Storage.FileBytes.{Bytes, drop, length-drop}
use happy_active_everywhere.Wire.{write_u32, read_u32, recv_exact}

take-append : (xs ys : Bytes) → take (length xs) (xs ++ ys) ≡ xs
take-append [] ys = refl
take-append (x ∷ xs) ys = ap (λ t. x ∷ t) (take-append xs ys)

drop-append : (xs ys : Bytes) → drop (length xs) (xs ++ ys) ≡ ys
drop-append [] ys = refl
drop-append (x ∷ xs) ys = drop-append xs ys

-- What was written is read, and the rest is left.
pub recv_exact-append :
    (n : ℕ) (xs ys : Bytes) → length xs ≡ n → recv_exact n (xs ++ ys) ≡ ok (xs, ys)
unfolding recv_exact
recv_exact-append n xs ys e =
    subst (λ (k : ℕ). recv_exact k (xs ++ ys) ≡ ok (xs, ys)) e
      (rw (
        le→leb (length xs) (length (xs ++ ys)) (omega (arith, length-append xs ys)),
        take-append,
        drop-append,
      ))

pub read_u32-write_u32 :
    (n : ℕ) (rest : Bytes) → n < 2 ^ 32 → read_u32 (write_u32 n ++ rest) ≡ ok (n, rest)
unfolding read_u32 write_u32
read_u32-write_u32 n rest h = ap (λ (k : ℕ). ok (k, rest)) (omega arith)

pub read_u32-shorter :
    (stream : Bytes) {out : ℕ × Bytes} → read_u32 stream ≡ ok out → length out.1 < length stream
unfolding read_u32
read_u32-shorter [] h = absurd cc
read_u32-shorter (a ∷ []) h = absurd cc
read_u32-shorter (a ∷ b ∷ []) h = absurd cc
read_u32-shorter (a ∷ b ∷ c ∷ []) h = absurd cc
read_u32-shorter (a ∷ b ∷ c ∷ d ∷ rest) {out} h =
    let e : out.1 ≡ rest = cc in omega (arith, ap length e)

pub recv_exact-shorter :
    (n : ℕ) (stream : Bytes) {out : Bytes × Bytes}
    → recv_exact n stream ≡ ok out
    → length out.1 ≤ length stream
unfolding recv_exact
recv_exact-shorter n stream h = ground (arith, length-drop n stream)
