-- ===== src/Sync/Rows.antt =====
-- The rows of an index in the order of their numbers.
use happy_active_everywhere.Base.{
  ℕ, suc, ◌≤◌, false, [], ◌∷◌, ltb, leb, length, ◌≡◌, ◌≢◌, refl, ap, ◌∙◌, arith, inl, inr,
  Bool-cases, leb→le, ltb→lt,
}
use happy_active_everywhere.Base.In.{All}
use happy_active_everywhere.Base.Order.{nat_ord, list_ord, ◌≺◌, lt→≺}
use happy_active_everywhere.Base.Text.{Text}
use happy_active_everywhere.Base.BTreeMap.{BTreeMap, IsSorted, Above-trans}
use happy_active_everywhere.Base.Paging.{rows_after, precedes}
use happy_active_everywhere.Base.Unique.{IsUnique, Apart}
use happy_active_everywhere.Share.{Record, Entry, place_row, by_seq, up_to, record_of}
use happy_active_everywhere.Share.Saving.{seq_of, AtMost}

-- A row has its number in front.
abbrev pub AreNumbered : BTreeMap ℕ Record → Type 0
AreNumbered rows = All (λ (e : ℕ × Record). e.1.seq ≡ e.0) rows

abbrev RowsApart : ℕ → BTreeMap ℕ Record → Type 0
RowsApart n rows = All (λ (e : ℕ × Record). e.0 ≢ n) rows

All-place_row :
    (P : ℕ × Record → Type 0) (n : ℕ) (r : Record) (rows : BTreeMap ℕ Record)
    → P (n, r)
    → All P rows
    → All P (place_row n r rows)
unfolding place_row
All-place_row P n r [] p a = (p, tt)
All-place_row P n r ((k, q) ∷ rows) p a = elim (Bool-cases (ltb k n)) [
  | inl e ↦ rw e (a.0, All-place_row P n r rows p a.1)
  | inr e ↦ rw e (p, a)
]

before_next : (k n : ℕ) → ltb k n ≡ false → k ≢ n → n ≺ k
before_next k n e d = lt→≺ n k (ground arith)

place_row-IsSorted :
    (n : ℕ) (r : Record) (rows : BTreeMap ℕ Record)
    → RowsApart n rows
    → IsSorted rows
    → IsSorted (place_row n r rows)
unfolding place_row
place_row-IsSorted n r [] a s = (tt, tt)
place_row-IsSorted n r ((k, q) ∷ rows) a s = elim (Bool-cases (ltb k n)) [
  | inl e ↦ rw e (
    All-place_row (λ (x : ℕ × Record). k ≺ x.0) n r rows (lt→≺ k n (ltb→lt k n e)) s.0,
    place_row-IsSorted n r rows a.1 s.1,
  )
  | inr e ↦ let l : n ≺ k = before_next k n e a.0 in rw e ((l, Above-trans n k rows l s.0), s)
]

pub by_seq-AreNumbered : (m : BTreeMap Text Entry) → AreNumbered (by_seq m)
unfolding by_seq
by_seq-AreNumbered [] = tt
by_seq-AreNumbered ((p, e) ∷ m) =
    All-place_row (λ (x : ℕ × Record). x.1.seq ≡ x.0) e.seq (record_of p e) (by_seq m) refl
      (by_seq-AreNumbered m)

by_seq-RowsApart : (n : ℕ) (m : BTreeMap Text Entry) → Apart seq_of n m → RowsApart n (by_seq m)
unfolding by_seq
by_seq-RowsApart n [] a = tt
by_seq-RowsApart n ((p, e) ∷ m) a =
    All-place_row (λ (x : ℕ × Record). x.0 ≢ n) e.seq (record_of p e) (by_seq m) a.0
      (by_seq-RowsApart n m a.1)

pub by_seq-IsSorted : (m : BTreeMap Text Entry) → IsUnique seq_of m → IsSorted (by_seq m)
unfolding by_seq
by_seq-IsSorted [] u = tt
by_seq-IsSorted ((p, e) ∷ m) u =
    place_row-IsSorted e.seq (record_of p e) (by_seq m) (by_seq-RowsApart e.seq m u.0)
      (by_seq-IsSorted m u.1)

length-place_row :
    (n : ℕ) (r : Record) (rows : BTreeMap ℕ Record)
    → length (place_row n r rows) ≡ suc (length rows)
unfolding place_row
length-place_row n r [] = refl
length-place_row n r ((k, q) ∷ rows) = ground (arith, length-place_row n r rows)

pub length-by_seq : (m : BTreeMap Text Entry) → length (by_seq m) ≡ length m
unfolding by_seq
length-by_seq [] = refl
length-by_seq ((p, e) ∷ m) =
    length-place_row e.seq (record_of p e) (by_seq m) ∙ ap suc (length-by_seq m)

pub All-up_to :
    (P : ℕ × Record → Type 0) (c : ℕ) (rows : BTreeMap ℕ Record) → All P rows → All P (up_to c rows)
unfolding up_to
All-up_to P c [] a = tt
All-up_to P c (e ∷ rows) a = elim (Bool-cases (leb e.0 c)) [
  | inl t ↦ rw t (a.0, All-up_to P c rows a.1)
  | inr t ↦ rw t (All-up_to P c rows a.1)
]

pub up_to-IsSorted : (c : ℕ) (rows : BTreeMap ℕ Record) → IsSorted rows → IsSorted (up_to c rows)
unfolding up_to
up_to-IsSorted c [] s = tt
up_to-IsSorted c (e ∷ rows) s = elim (Bool-cases (leb e.0 c)) [
  | inl t ↦ rw t (All-up_to (λ (x : ℕ × Record). e.0 ≺ x.0) c rows s.0, up_to-IsSorted c rows s.1)
  | inr t ↦ rw t (up_to-IsSorted c rows s.1)
]

pub up_to-le : (c : ℕ) (rows : BTreeMap ℕ Record) → All (λ (x : ℕ × Record). x.0 ≤ c) (up_to c rows)
unfolding up_to
up_to-le c [] = tt
up_to-le c (e ∷ rows) = elim (Bool-cases (leb e.0 c)) [
  | inl t ↦ rw t (leb→le e.0 c t, up_to-le c rows)
  | inr t ↦ rw t (up_to-le c rows)
]

pub length-up_to : (c : ℕ) (rows : BTreeMap ℕ Record) → length (up_to c rows) ≤ length rows
unfolding up_to
length-up_to c [] = omega arith
length-up_to c (e ∷ rows) = ground (arith, length-up_to c rows)

module _ (k : ℕ) where
  pub All-rows_after :
      (P : ℕ × Record → Type 0) (rows : BTreeMap ℕ Record) → All P rows → All P (rows_after k rows)
  unfolding rows_after
  All-rows_after P [] a = tt
  All-rows_after P (e ∷ rows) a = elim (Bool-cases (precedes k e.0)) [
    | inl t ↦ rw t (a.0, All-rows_after P rows a.1)
    | inr t ↦ rw t (All-rows_after P rows a.1)
  ]

pub length-rows_after :
    (k : ℕ) (rows : BTreeMap ℕ Record) → length (rows_after k rows) ≤ length rows
unfolding rows_after
length-rows_after k [] = omega arith
length-rows_after k (e ∷ rows) = ground (arith, length-rows_after k rows)

pub by_seq-le :
    (n : ℕ) (m : BTreeMap Text Entry) → AtMost n m → All (λ (x : ℕ × Record). x.0 ≤ n) (by_seq m)
unfolding by_seq
by_seq-le n [] a = tt
by_seq-le n ((p, e) ∷ m) a =
    All-place_row (λ (x : ℕ × Record). x.0 ≤ n) e.seq (record_of p e) (by_seq m) a.0
      (by_seq-le n m a.1)
