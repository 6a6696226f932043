-- ===== src/Wire/Frames.antt =====
-- What `send` and `work` write, `read` reads.
use mathlib.Core.List.{append_assoc}
use happy_active_everywhere.Base.{
  ℕ, zero, suc, ◌+◌, ◌%◌, ◌^◌, ◌<◌, ◌≤◌, ◌++◌, leb, length, leb→le, le→leb, ◌≡◌, refl, ap, subst,
  sym, ◌∙◌, arith, Result, ok, ensure-eq-ok, >>=-eq-ok,
}
use happy_active_everywhere.Storage.FileBytes.{Bytes}
use happy_active_everywhere.Wire.{
  Packet, busy, ready, packet, send, work, read_packet, read_loop, read, write_u32, read_u32,
  recv_exact,
}
use happy_active_everywhere.Base.{ok-injective, Result-cases, err, some, none≢some, inl, inr}
use happy_active_everywhere.Wire.Streams.{
  recv_exact-append, read_u32-write_u32, read_u32-shorter, recv_exact-shorter,
}

module _ {V : Type 0} (encode : Packet V → Bytes) (decode : Bytes → Result (Packet V))
    (frame : ℕ) where
  packet-checks :
      (p : Packet V) {s : Bytes}
      → packet encode decode frame p ≡ ok s
      → (length (encode p) ≤ frame) × (s ≡ write_u32 (length (encode p) % 2 ^ 32) ++ encode p)
  unfolding packet
  packet-checks p {s} h =
      let (l, e) =
        ensure-eq-ok (leb (length (encode p)) frame) _
          (ok (write_u32 (length (encode p) % 2 ^ 32) ++ encode p)) h in
      (leb→le (length (encode p)) frame l, cc)

  read_packet-packet :
      (p : Packet V) (rest : Bytes) {s : Bytes}
      → frame < 2 ^ 32
      → decode (encode p) ≡ ok p
      → packet encode decode frame p ≡ ok s
      → read_packet encode decode frame (s ++ rest) ≡ ok (p, rest)
  unfolding read_packet
  read_packet-packet p rest {s} small back h =
      let (l, e) = packet-checks p h in
      let n = length (encode p) in
      let cut : n % 2 ^ 32 ≡ n = omega arith in
      let bytes : s ++ rest ≡ write_u32 n ++ (encode p ++ rest) =
        ap (λ t. t ++ rest) (e ∙ ap (λ k. write_u32 k ++ encode p) cut)
        ∙ append_assoc (write_u32 n) (encode p) rest in
      subst (λ (t : Bytes). read_packet encode decode frame t ≡ ok (p, rest)) (sym bytes)
        (rw (
          read_packet,
          read_u32-write_u32 n (encode p ++ rest) (omega arith),
          le→leb n frame l,
          recv_exact-append n (encode p) rest refl,
          back,
        ))

  -- A packet takes bytes of the stream.
  read_packet-shorter :
      (stream : Bytes) {p : Packet V} {rest : Bytes}
      → read_packet encode decode frame stream ≡ ok (p, rest)
      → length rest < length stream
  unfolding read_packet
  read_packet-shorter stream {p} {rest} h =
      let ((size, after), e, h1) = >>=-eq-ok (read_u32 stream) _ h in
      let (_, h2) = ensure-eq-ok (leb size frame) _ _ h1 in
      let ((bytes, left), f, h3) = >>=-eq-ok (recv_exact size after) _ h2 in
      let (q, _, h4) = >>=-eq-ok (decode bytes) _ h3 in
      let same : left ≡ rest = ap (λ (x : Packet V × Bytes). x.1) (ok-injective h4) in
      subst (λ (t : Bytes). length t < length stream) same
        (omega (arith, read_u32-shorter stream e, recv_exact-shorter size after f))

  -- With more fuel than the stream has bytes, the loop comes to a result.
  read_loop_ends :
      (fuel : ℕ) (stream : Bytes)
      → length stream < fuel
      → (result : Result (V × Bytes)) × (read_loop encode decode frame fuel stream ≡ some result)
  unfolding read_loop
  read_loop_ends zero stream l = absurd (omega arith)
  read_loop_ends (suc fuel) stream l =
      elim (Result-cases (read_packet encode decode frame stream)) [
        | inr (message, e) ↦ (err message, rw (read_loop, e))
        | inl ((ready value, rest), e) ↦ (ok (value, rest), rw (read_loop, e))
        | inl ((busy, rest), e) ↦
            let (result, q) =
              read_loop_ends fuel rest (omega (arith, read_packet-shorter stream e)) in
            (result, rw (read_loop, e) q)
      ]

  -- A result stays the same with more fuel.
  read_loop_more :
      (fuel more : ℕ) (stream : Bytes) {result : Result (V × Bytes)}
      → fuel ≤ more
      → read_loop encode decode frame fuel stream ≡ some result
      → read_loop encode decode frame more stream ≡ some result
  unfolding read_loop
  read_loop_more zero more stream l h = absurd (none≢some h)
  read_loop_more (suc fuel) zero stream l h = absurd (omega arith)
  read_loop_more (suc fuel) (suc more) stream {result} l h =
      elim (Result-cases (read_packet encode decode frame stream)) [
        | inr (message, e) ↦ rw (read_loop, e) (rw (read_loop, e) at h)
        | inl ((ready value, rest), e) ↦ rw (read_loop, e) (rw (read_loop, e) at h)
        | inl ((busy, rest), e) ↦
            rw (read_loop, e) (read_loop_more fuel more rest (omega arith) (rw (read_loop, e) at h))
      ]

  -- The loop of `read` terminates on every stream, valid or not: with any fuel above the length of the
  -- stream it comes to a result, never to the end of the fuel, and that result is the one of `read`.
  pub read_loop-enough :
      (fuel : ℕ) (stream : Bytes)
      → length stream < fuel
      → (result : Result (V × Bytes)) × (read_loop encode decode frame fuel stream ≡ some result)
        × (read encode decode frame stream ≡ some result)
  unfolding read
  read_loop-enough fuel stream l =
      let (result, q) = read_loop_ends (suc (length stream)) stream (omega arith) in
      (result, read_loop_more (suc (length stream)) fuel stream (omega arith) q, q)

  work-checks :
      (ticks : ℕ) {beats : Bytes}
      → work encode decode frame (suc ticks) ≡ ok beats
      → (beat : Bytes) × (rest : Bytes) × (packet encode decode frame busy ≡ ok beat)
        × (work encode decode frame ticks ≡ ok rest)
        × (beats ≡ beat ++ rest)
  unfolding work
  work-checks ticks {beats} h =
      let (beat, e, h1) = >>=-eq-ok (packet encode decode frame busy) _ h in
      let (rest, f, h2) =
        >>=-eq-ok (work encode decode frame ticks) (λ (t : Bytes). ok (beat ++ t)) h1 in
      (beat, rest, e, f, cc)

  read_loop-work :
      (ticks fuel : ℕ) (v : V) (rest : Bytes) {beats s : Bytes}
      → ticks < fuel
      → frame < 2 ^ 32
      → ((p : Packet V) → decode (encode p) ≡ ok p)
      → work encode decode frame ticks ≡ ok beats
      → send encode decode frame v ≡ ok s
      → read_loop encode decode frame fuel (beats ++ (s ++ rest)) ≡ some (ok (v, rest))
  unfolding work send read_loop
  read_loop-work ticks zero v rest l small back h k = absurd (omega arith)
  read_loop-work zero (suc fuel) v rest {beats} {s} l small back h k =
      subst
        (λ (t : Bytes).
          read_loop encode decode frame (suc fuel) (t ++ (s ++ rest)) ≡ some (ok (v, rest)))
        (ok-injective h)
        (rw (read_loop, read_packet-packet (ready v) rest small (back (ready v)) k))
  read_loop-work (suc ticks) (suc fuel) v rest {beats} {s} l small back h k =
      let (beat, more, e, f, q) = work-checks ticks h in
      subst (λ (t : Bytes). read_loop encode decode frame (suc fuel) t ≡ some (ok (v, rest)))
        (sym (ap (λ t. t ++ (s ++ rest)) q ∙ append_assoc beat more (s ++ rest)))
        (rw (read_loop, read_packet-packet busy (more ++ (s ++ rest)) small (back busy) e)
          (read_loop-work ticks fuel v rest (omega arith) small back f k))

  -- Where the limit has 32 bits and the parser reads back what is printed: whatever number of
  -- heartbeats came while the sender worked, `read` returns the value that was sent, and leaves the
  -- stream after it.
  pub read-send :
      (ticks : ℕ) (v : V) (rest : Bytes) {beats s : Bytes}
      → frame < 2 ^ 32
      → ((p : Packet V) → decode (encode p) ≡ ok p)
      → work encode decode frame ticks ≡ ok beats
      → send encode decode frame v ≡ ok s
      → read encode decode frame (beats ++ (s ++ rest)) ≡ some (ok (v, rest))
  read-send ticks v rest {beats} {s} small back h k =
      let stream = beats ++ (s ++ rest) in
      let fuel = suc (length stream + ticks) in
      let (result, q, same) = read_loop-enough fuel stream (omega arith) in
      same ∙ sym q ∙ read_loop-work ticks fuel v rest (omega arith) small back h k
