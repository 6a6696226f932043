-- ===== src/Storage/FileBytes.antt =====
-- The bytes of a file: reads and writes at an offset.
use native.Mathlib.Nat.{zero-add, add-zero, suc-add}
use happy_active_everywhere.Base.{
  ℕ, zero, suc, ◌+◌, ◌-◌, ◌≤◌, min, max, Option, none, some, List, [], ◌∷◌, ◌++◌, leb,
  if◌then◌else◌, length, take, ◌⊎◌, ◌≡◌, refl, ap, arith, inl, inr, ◌∙◌, sym,
}

abbrev pub Bytes : Type 0
Bytes = List ℕ

abbrev pub drop : ℕ → Bytes → Bytes
drop zero xs = xs
drop (suc n) [] = []
drop (suc n) (x ∷ xs) = drop n xs

-- `seek` to an offset and `read_exact`: `none` where the file ends too early.
unfoldable pub read_at : ℕ → ℕ → Bytes → Option Bytes
read_at offset n file =
    if leb n (length (drop offset file)) then some (take n (drop offset file)) else none

-- `data` over the first bytes of `file`.
unfoldable pub overlay : Bytes → Bytes → Bytes
overlay [] file = file
overlay (d ∷ ds) [] = d ∷ ds
overlay (d ∷ ds) (x ∷ file) = d ∷ overlay ds file

-- `seek` to an offset and `write_all`: a file that ends before the offset is filled with zeros, if
-- there is anything to write.
unfoldable pub place_at : ℕ → Bytes → Bytes → Bytes
unfolding overlay
place_at zero bytes file = overlay bytes file
place_at (suc offset) bytes [] = 0 ∷ place_at offset bytes []
place_at (suc offset) bytes (x ∷ file) = x ∷ place_at offset bytes file

unfoldable pub write_at : ℕ → Bytes → Bytes → Bytes
unfolding place_at
write_at offset [] file = file
write_at offset (d ∷ ds) file = place_at offset (d ∷ ds) file

pub length-take : (n : ℕ) (xs : Bytes) → length (take n xs) ≡ min n (length xs)
length-take zero xs = omega arith
length-take (suc n) [] = omega arith
length-take (suc n) (x ∷ xs) = omega (arith, length-take n xs)

pub length-drop : (n : ℕ) (xs : Bytes) → length (drop n xs) ≡ length xs - n
length-drop zero xs = omega arith
length-drop (suc n) [] = omega arith
length-drop (suc n) (x ∷ xs) = omega (arith, length-drop n xs)

pub take-append-drop : (n : ℕ) (xs : Bytes) → take n xs ++ drop n xs ≡ xs
take-append-drop zero xs = refl
take-append-drop (suc n) [] = refl
take-append-drop (suc n) (x ∷ xs) = ap (λ t. x ∷ t) (take-append-drop n xs)

pub drop-nil : (k : ℕ) → drop k [] ≡ []
drop-nil zero = refl
drop-nil (suc k) = refl

pub drop-all : (k : ℕ) (xs : Bytes) → length xs ≤ k → drop k xs ≡ []
drop-all zero [] h = refl
drop-all zero (x ∷ xs) h = absurd (omega arith)
drop-all (suc k) [] h = refl
drop-all (suc k) (x ∷ xs) h = drop-all k xs (omega arith)

pub take-all : (xs : Bytes) → take (length xs) xs ≡ xs
take-all [] = refl
take-all (x ∷ xs) = ap (λ t. x ∷ t) (take-all xs)

length-overlay :
    (bytes file : Bytes) → length (overlay bytes file) ≡ max (length bytes) (length file)
unfolding overlay
length-overlay [] file = omega arith
length-overlay (d ∷ ds) [] = omega arith
length-overlay (d ∷ ds) (x ∷ file) = omega (arith, length-overlay ds file)

length-place_at :
    (offset : ℕ) (bytes file : Bytes)
    → length (place_at offset bytes file) ≡ max (offset + length bytes) (length file)
unfolding place_at
length-place_at zero bytes file = omega (arith, length-overlay bytes file)
length-place_at (suc n) bytes [] = omega (arith, length-place_at n bytes [])
length-place_at (suc n) bytes (x ∷ file) = omega (arith, length-place_at n bytes file)

take-overlay : (bytes file : Bytes) → take (length bytes) (overlay bytes file) ≡ bytes
unfolding overlay
take-overlay [] file = refl
take-overlay (d ∷ ds) [] = ap (λ t. d ∷ t) (take-all ds)
take-overlay (d ∷ ds) (x ∷ file) = ap (λ t. d ∷ t) (take-overlay ds file)

take-place_at :
    (offset n : ℕ) (bytes file : Bytes)
    → n ≤ offset
    → n ≤ length file
    → take n (place_at offset bytes file) ≡ take n file
unfolding place_at
take-place_at offset zero bytes file h l = refl
take-place_at zero (suc n) bytes file h l = absurd (omega arith)
take-place_at (suc k) (suc n) bytes [] h l = absurd (omega arith)
take-place_at (suc k) (suc n) bytes (x ∷ file) h l =
    ap (λ t. x ∷ t) (take-place_at k n bytes file (omega arith) (omega arith))

drop-overlay :
    (k : ℕ) (bytes file : Bytes) → length bytes ≤ k → drop k (overlay bytes file) ≡ drop k file
unfolding overlay
drop-overlay k [] file h = refl
drop-overlay zero (d ∷ ds) file h = absurd (omega arith)
drop-overlay (suc k) (d ∷ ds) [] h = drop-all k ds (omega arith)
drop-overlay (suc k) (d ∷ ds) (x ∷ file) h = drop-overlay k ds file (omega arith)

drop-place_at :
    (offset k : ℕ) (bytes file : Bytes)
    → offset + length bytes ≤ k
    → drop k (place_at offset bytes file) ≡ drop k file
unfolding place_at
drop-place_at zero k bytes file h = drop-overlay k bytes file (omega arith)
drop-place_at (suc n) zero bytes file h = absurd (omega arith)
drop-place_at (suc n) (suc k) bytes [] h = drop-place_at n k bytes [] (omega arith) ∙ drop-nil k
drop-place_at (suc n) (suc k) bytes (x ∷ file) h = drop-place_at n k bytes file (omega arith)

read_place :
    (offset : ℕ) (bytes file : Bytes)
    → read_at offset (length bytes) (place_at offset bytes file) ≡ some bytes
unfolding read_at place_at
read_place zero bytes file = ground (arith, length-overlay bytes file, take-overlay bytes file)
read_place (suc n) bytes [] = read_place n bytes []
read_place (suc n) bytes (x ∷ file) = read_place n bytes file

read_nothing : (offset : ℕ) (file : Bytes) → read_at offset 0 file ≡ some []
unfolding read_at
read_nothing offset file = ground arith

-- What was written is read back, and a write leaves what is read elsewhere.
pub read_at-write_at :
    (offset : ℕ) (bytes file : Bytes)
    → read_at offset (length bytes) (write_at offset bytes file) ≡ some bytes
unfolding write_at
read_at-write_at offset [] file = read_nothing offset file
read_at-write_at offset (d ∷ ds) file = read_place offset (d ∷ ds) file

read_before :
    (at n offset : ℕ) (bytes file : Bytes) {found : Bytes}
    → at + n ≤ offset
    → read_at at n file ≡ some found
    → read_at at n (place_at offset bytes file) ≡ some found
unfolding read_at place_at
read_before zero n offset bytes file h r =
    ground (arith, length-place_at offset bytes file, take-place_at offset n bytes file)
read_before (suc at) n zero bytes file h r = absurd (omega arith)
read_before (suc at) n (suc offset) bytes [] h r =
    read_before at n offset bytes [] (omega arith) (rw (drop-nil at) r)
read_before (suc at) n (suc offset) bytes (x ∷ file) h r =
    read_before at n offset bytes file (omega arith) r

pub read_at-write_at_disjoint :
    (at n offset : ℕ) (bytes file : Bytes) {found : Bytes}
    → (at + n ≤ offset) ⊎ (offset + length bytes ≤ at)
    → read_at at n file ≡ some found
    → read_at at n (write_at offset bytes file) ≡ some found
unfolding write_at read_at
read_at-write_at_disjoint at n offset [] file h r = r
read_at-write_at_disjoint at n offset (d ∷ ds) file (inl h) r =
    read_before at n offset (d ∷ ds) file h r
read_at-write_at_disjoint at n offset (d ∷ ds) file (inr h) r =
    rw (drop-place_at offset at (d ∷ ds) file h) r

pub drop-drop : (a b : ℕ) (xs : Bytes) → drop a (drop b xs) ≡ drop (b + a) xs
drop-drop a zero xs = rw zero-add
drop-drop a (suc b) [] = drop-nil a ∙ sym (drop-nil (suc b + a))
drop-drop a (suc b) (x ∷ xs) = drop-drop a b xs ∙ rw suc-add

pub take-add : (a b : ℕ) (xs : Bytes) → take a xs ++ take b (drop a xs) ≡ take (a + b) xs
take-add zero b xs = rw zero-add
take-add (suc a) zero [] = rw add-zero
take-add (suc a) (suc b) [] = rw suc-add
take-add (suc a) b (x ∷ xs) = ap (λ t. x ∷ t) (take-add a b xs) ∙ rw suc-add
