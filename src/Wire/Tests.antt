-- ===== src/Wire/Tests.antt =====
-- Frames of numbers, with a printer and a parser for them.
use happy_active_everywhere.Base.{
  ℕ, zero, suc, [], ◌∷◌, ◌++◌, ◌≡◌, refl, arith, Result, ok, err, some,
}
use happy_active_everywhere.Storage.FileBytes.{Bytes}
use happy_active_everywhere.Wire.{
  Packet, busy, ready, packet, send, work, read_loop, read, max_frame, write_u32,
}
use happy_active_everywhere.Wire.Frames.{read_loop-enough, read-send}

abbrev print : Packet ℕ → Bytes
print busy = 0 ∷ []
print (ready n) = 1 ∷ n ∷ []

abbrev parse : Bytes → Result (Packet ℕ)
parse (zero ∷ []) = ok busy
parse (suc zero ∷ n ∷ []) = ok (ready n)
parse _ = err "expected value"

parse-print : (p : Packet ℕ) → parse (print p) ≡ ok p
parse-print busy = refl
parse-print (ready n) = refl

two_beats : work print parse max_frame 2 ≡ ok (0 ∷ 0 ∷ 0 ∷ 1 ∷ 0 ∷ 0 ∷ 0 ∷ 0 ∷ 1 ∷ 0 ∷ [])
unfolding work packet write_u32
two_beats = refl

send_seven : send print parse max_frame 7 ≡ ok (0 ∷ 0 ∷ 0 ∷ 2 ∷ 1 ∷ 7 ∷ [])
unfolding send packet write_u32
send_seven = refl

read-send_example :
    read print parse max_frame
      ((0 ∷ 0 ∷ 0 ∷ 1 ∷ 0 ∷ 0 ∷ 0 ∷ 0 ∷ 1 ∷ 0 ∷ []) ++ ((0 ∷ 0 ∷ 0 ∷ 2 ∷ 1 ∷ 7 ∷ []) ++ (9 ∷ [])))
    ≡ some (ok (7, 9 ∷ []))
read-send_example =
    read-send print parse max_frame 2 7 (9 ∷ []) (omega arith) parse-print two_beats send_seven

read_loop-enough_example :
    (result : Result (ℕ × Bytes)) × (read_loop print parse max_frame 50
        (0 ∷ 0 ∷ 0 ∷ 1 ∷ 0 ∷ 0 ∷ 0 ∷ 0 ∷ 2 ∷ 1 ∷ 7 ∷ [])
      ≡ some result)
    × (read print parse max_frame (0 ∷ 0 ∷ 0 ∷ 1 ∷ 0 ∷ 0 ∷ 0 ∷ 0 ∷ 2 ∷ 1 ∷ 7 ∷ []) ≡ some result)
read_loop-enough_example =
    read_loop-enough print parse max_frame 50 (0 ∷ 0 ∷ 0 ∷ 1 ∷ 0 ∷ 0 ∷ 0 ∷ 0 ∷ 2 ∷ 1 ∷ 7 ∷ [])
      (omega arith)
