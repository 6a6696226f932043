-- ===== src/Jobs/Reader.antt =====
-- src/jobs.rs: what the supervisor reads of a child's output. `lossy` is `String::from_utf8_lossy`,
-- and `is_complete` whether a line is a JSON value with the status "complete".
use mathlib.Core.List.{append_assoc, append-nil}
use happy_active_everywhere.Base.{
  zero, length-append, ℕ, suc, ◌+◌, String, Bool, true, false, Option, none, List, [], ◌∷◌, ◌++◌,
  ltb, ◌==◌, length, take, if◌then◌else◌, Bool-cases, inl, inr, ◌≡◌, refl, sym, ap, ◌∙◌, arith,
}
use happy_active_everywhere.Base.In.{All}
use happy_active_everywhere.Jobs.{Progress}

-- The state of the thread: what it shares, and the line so far.
pub record Reading : Type 0 where
  pub status : Progress
  pub line : List ℕ

module _ (lossy : List ℕ → String) (is_complete : List ℕ → Bool) where
  unfoldable pub end_line : Option ℕ → Reading → Reading
  end_line now reading = record {
    status = record {
      last_message = lossy reading.line;
      last_success = if is_complete reading.line then now else reading.status.last_success;
    };
    line = [];
  }

  unfoldable pub read_byte : Option ℕ → ℕ → Reading → Reading
  unfolding end_line
  read_byte now byte reading =
      if byte == 10
      then end_line now reading
      else if ltb (length reading.line) 4096
      then record reading { line = reading.line ++ (byte ∷ []) }
      else reading

  unfoldable pub read_bytes : Option ℕ → List ℕ → Reading → Reading
  unfolding read_byte
  read_bytes now [] reading = reading
  read_bytes now (byte ∷ bytes) reading = read_bytes now bytes (read_byte now byte reading)

  -- The loop of `reader`, on the results of `read` with the times at which they came.
  unfoldable pub reader : List (Option ℕ × List ℕ) → Reading → Reading
  unfolding read_bytes
  reader [] reading = reading
  reader ((now, buffer) ∷ buffers) reading = reader buffers (read_bytes now buffer reading)

  abbrev pub contents : List (Option ℕ × List ℕ) → List ℕ
  contents [] = []
  contents ((now, buffer) ∷ buffers) = buffer ++ contents buffers

  -- The same message and the same line.
  abbrev Same : Reading → Reading → Type 0
  Same a b = (a.status.last_message ≡ b.status.last_message) × (a.line ≡ b.line)

  read_byte-Same :
      (m n : Option ℕ) (byte : ℕ) (a b : Reading)
      → Same a b
      → Same (read_byte m byte a) (read_byte n byte b)
  unfolding read_byte end_line
  read_byte-Same m n byte a b (s, l) = elim (Bool-cases (byte == 10)) [
    | inl t ↦ rw t (ap lossy l, refl)
    | inr t ↦ elim (Bool-cases (ltb (length b.line) 4096)) [
      | inl u ↦
          let u' : ltb (length a.line) 4096 ≡ true =
            ap (λ (x : List ℕ). ltb (length x) 4096) l ∙ u in
          rw (t, u, u') (s, ap (λ (x : List ℕ). x ++ (byte ∷ [])) l)
      | inr u ↦
          let u' : ltb (length a.line) 4096 ≡ false =
            ap (λ (x : List ℕ). ltb (length x) 4096) l ∙ u in
          rw (t, u, u') (s, l)
    ]
  ]

  read_bytes-Same :
      (m n : Option ℕ) (bytes : List ℕ) (a b : Reading)
      → Same a b
      → Same (read_bytes m bytes a) (read_bytes n bytes b)
  unfolding read_bytes
  read_bytes-Same m n [] a b s = s
  read_bytes-Same m n (byte ∷ bytes) a b s =
      read_bytes-Same m n bytes (read_byte m byte a) (read_byte n byte b)
        (read_byte-Same m n byte a b s)

  read_bytes-append :
      (n : Option ℕ) (xs ys : List ℕ) (a : Reading)
      → read_bytes n (xs ++ ys) a ≡ read_bytes n ys (read_bytes n xs a)
  unfolding read_bytes
  read_bytes-append n [] ys a = refl
  read_bytes-append n (x ∷ xs) ys a = read_bytes-append n xs ys (read_byte n x a)

  reader-Same :
      (buffers : List (Option ℕ × List ℕ)) (a b : Reading)
      → Same a b
      → Same (reader buffers a) (read_bytes none (contents buffers) b)
  unfolding reader read_bytes
  reader-Same [] a b s = s
  reader-Same ((now, buffer) ∷ buffers) a b s =
      rw (read_bytes-append none buffer (contents buffers) b) (
        reader-Same buffers (read_bytes now buffer a) (read_bytes none buffer b)
          (read_bytes-Same now none buffer a b s))

  abbrev pub IsLine : List ℕ → Type 0
  IsLine = All (λ (byte : ℕ). (byte == 10) ≡ false)

  -- Bytes without a newline are added while there is room.
  read_bytes-line :
      (n : Option ℕ) (room : ℕ) (bytes : List ℕ) (a : Reading)
      → IsLine bytes
      → length a.line + room ≡ 4096
      → Same (read_bytes n bytes a) (record { status = a.status; line = a.line ++ take room bytes })
  unfolding read_bytes read_byte
  read_bytes-line n zero [] a f l = (refl, sym (append-nil a.line))
  read_bytes-line n (suc room) [] a f l = (refl, sym (append-nil a.line))
  read_bytes-line n zero (x ∷ bytes) a (e, f) l =
      let full : ltb (length a.line) 4096 ≡ false = ground arith in
      rw (read_bytes, read_byte, e, full) (read_bytes-line n zero bytes a f l)
  read_bytes-line n (suc room) (x ∷ bytes) a (e, f) l =
      let free : ltb (length a.line) 4096 ≡ true = ground arith in
      let (m, k) =
        read_bytes-line n room bytes (record a { line = a.line ++ (x ∷ []) }) f
          (omega (arith, l, length-append a.line (x ∷ []))) in
      rw (read_bytes, read_byte, e, free) (m, k ∙ append_assoc a.line (x ∷ []) (take room bytes))

  -- Whatever pieces it comes in: after a line that is followed by a newline and by bytes without one, the
  -- message is the first 4096 bytes of that line, and of the bytes that follow the first 4096 are kept.
  pub reader-line :
      (buffers : List (Option ℕ × List ℕ)) (status : Progress) (line partial : List ℕ)
      → contents buffers ≡ line ++ (10 ∷ partial)
      → IsLine line
      → IsLine partial
      → ((reader buffers record { status = status; line = [] }).status.last_message
          ≡ lossy (take 4096 line))
        × ((reader buffers record { status = status; line = [] }).line ≡ take 4096 partial)
  unfolding read_bytes read_byte end_line
  reader-line buffers status line partial e f g =
      let start : Reading = record { status = status; line = [] } in
      let middle = read_bytes none line start in
      let (_, k) = read_bytes-line none 4096 line start f refl in
      let (m, l) = read_bytes-line none 4096 partial (end_line none middle) g refl in
      let whole : read_bytes none (contents buffers) start
          ≡ read_bytes none partial (end_line none middle) =
        ap (λ (x : List ℕ). read_bytes none x start) e
        ∙ read_bytes-append none line (10 ∷ partial) start in
      let (s, q) = reader-Same buffers start start (refl, refl) in
      (
        s ∙ ap (λ (x : Reading). x.status.last_message) whole ∙ m ∙ ap lossy k,
        q ∙ ap (λ (x : Reading). x.line) whole ∙ l,
      )
